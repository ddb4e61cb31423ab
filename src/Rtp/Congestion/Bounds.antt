-- ===== src/Rtp/Congestion/Bounds.antt =====
-- The controller keeps its rate within its bounds, and moves it the right way.
use wave.Common.{
  ℕ, ◌+◌, ◌*◌, ◌/◌, ◌^◌, ◌≤◌, ◌<◌, ◌≡◌, arith, ◌||◌, ◌&&◌, ◌-◌, some, min, max, ltb, if◌then◌else◌,
}
use wave.Rtp.Congestion.{Congestion, new, feedback}

-- The bounds that `new` demands.
abbrev pub IsBounded : Congestion → Type 0
IsBounded c =
    (1 ≤ c.min_bps)
    × (c.min_bps ≤ c.bitrate_bps)
    × (c.bitrate_bps ≤ c.max_bps)
    × (c.max_bps < 2 ^ 32)

-- Every rate that `new` accepts for a `u32` limit is within its bounds.
pub new-IsBounded :
    (initial lo hi : ℕ) (c : Congestion) → hi < 2 ^ 32 → new initial lo hi ≡ some c → IsBounded c
unfolding new
new-IsBounded initial lo hi c h e = ground arith

-- On a controller within its bounds, one interval keeps the bounds and a rate within them. It halves
-- the rate, down to the lower bound, when the round trip takes over two seconds, or when over a tenth
-- of the packets was lost and their number is below the largest `u32`; otherwise it adds a twentieth,
-- up to the upper bound, whatever was lost.
pub feedback_lem :
    (c : Congestion) (lost received rtt_ms : ℕ)
    → IsBounded c
    → let after = feedback lost received rtt_ms c in
      IsBounded after
      × (after.min_bps ≡ c.min_bps)
      × (after.max_bps ≡ c.max_bps)
      × (after.bitrate_bps ≡ (
          if ltb 2000 rtt_ms
            || (ltb (lost + received) (lost * 10) && ltb (lost + received) (2 ^ 32 - 1))
          then max (c.bitrate_bps / 2) c.min_bps
          else min (c.bitrate_bps + max (c.bitrate_bps / 20) 1) c.max_bps))
unfolding feedback
feedback_lem c lost received rtt_ms h = (ground arith, ground arith, ground arith, ground arith)
