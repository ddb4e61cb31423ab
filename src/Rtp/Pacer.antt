-- ===== src/Rtp/Pacer.antt =====
-- The pacing of outgoing media, modules/common/rtp_pacer.rs.
pub mod Schedule
use wave.Common.{
  ℕ, ◌+◌, ◌-◌, ◌*◌, ◌/◌, ◌%◌, ◌^◌, min, max, Bool, true, false, ◌||◌, Option, none, some,
  if◌then◌else◌, ltb, ◌==◌,
}

-- `PaceDecision`
pub data Decision : Type 0 where
  wait : ℕ → Decision
  send : ℕ → ℕ → Decision

-- `RtpPacer`
pub record Pacer : Type 0 where
  pub clock_rate : ℕ
  pub ptime_ms : ℕ
  pub next_ms : ℕ
  pub timestamp : ℕ
  pub started : Bool

unfoldable pub create : ℕ → ℕ → Option Pacer
create clock_rate ptime_ms =
    if clock_rate == 0 || ptime_ms == 0
    then none
    else some (record {
      clock_rate = clock_rate;
      ptime_ms = ptime_ms;
      next_ms = 0;
      timestamp = 0;
      started = false;
    })

unfoldable pub reset : ℕ → ℕ → Pacer → Pacer
reset now timestamp p = record {
  clock_rate = p.clock_rate;
  ptime_ms = p.ptime_ms;
  next_ms = now;
  timestamp = timestamp;
  started = true;
}

-- `step.max(1)`, where the quotient is cut to 32 bits.
unfoldable pub step : Pacer → ℕ
step p = max ((p.clock_rate * p.ptime_ms / 1000) % 2 ^ 32) 1

-- The rest of `poll`, once the pacer is started.
unfoldable pub poll_started : ℕ → Pacer → Decision × Pacer
poll_started now p =
    let late = min (now - p.next_ms) (2 ^ 32 - 1) in
    let timestamp = (p.timestamp + step p) % 2 ^ 32 in
    if ltb now p.next_ms then (wait p.next_ms, p) else (
      send ((timestamp + 2 ^ 32 - step p) % 2 ^ 32) late,
      record {
        clock_rate = p.clock_rate;
        ptime_ms = p.ptime_ms;
        next_ms = min (p.next_ms + p.ptime_ms) (2 ^ 64 - 1);
        timestamp = timestamp;
        started = p.started;
      },
    )

unfoldable pub poll : ℕ → Pacer → Decision × Pacer
poll now p = if p.started then poll_started now p else poll_started now (reset now 0 p)
