-- ===== src/Rtp/Congestion.antt =====
-- modules/common/rtp_congestion.rs: the bitrate controller.
pub mod Bounds
use wave.Common.{
  ℕ, ◌+◌, ◌*◌, ◌/◌, ◌^◌, Bool, ◌||◌, Option, none, some, min, max, leb, ltb, ◌==◌, if◌then◌else◌,
}

-- `u32::MAX`
abbrev pub u32_max : ℕ
u32_max = 0xffffffff

-- `RtpCongestion`
pub record Congestion : Type 0 where
  pub bitrate_bps : ℕ
  pub min_bps : ℕ
  pub max_bps : ℕ

unfoldable pub new : ℕ → ℕ → ℕ → Option Congestion
new initial_bps min_bps max_bps =
    if min_bps == 0 || (ltb max_bps min_bps || (ltb initial_bps min_bps || ltb max_bps initial_bps))
    then none
    else some (record { bitrate_bps = initial_bps; min_bps = min_bps; max_bps = max_bps })

unfoldable pub feedback : ℕ → ℕ → ℕ → Congestion → Congestion
feedback lost received rtt_ms c =
    let total = max (min (lost + received) u32_max) 1 in
    let step = max (c.bitrate_bps / 20) 1 in
    if ltb total (min (lost * 10) u32_max) || ltb 2000 rtt_ms
    then record c { bitrate_bps = max (c.bitrate_bps / 2) c.min_bps }
    else record c { bitrate_bps = min (min (c.bitrate_bps + step) u32_max) c.max_bps }
