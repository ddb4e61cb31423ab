-- ===== src/Sframe/Replay.antt =====
-- `SframeReplayWindow` of modules/common/sframe_core.rs.
pub mod Spec
pub mod Stream
use wave.Common.{
  ℕ, ◌+◌, ◌-◌, ◌*◌, ◌%◌, ◌^◌, Bool, true, false, Option, none, some, ltb, leb, ◌==◌, ◌!=◌,
  if◌then◌else◌, bit_and, bit_or,
}

pub record Window : Type 0 where
  pub highest : ℕ
  pub seen : ℕ
  pub initialized : Bool

-- `EMPTY`, `new` and `default`
abbrev pub empty : Window
empty = record { highest = 0; seen = 0; initialized = false }

-- The new bit set when the highest counter moves up by `shift`.
unfoldable pub slide : ℕ → ℕ → ℕ
slide seen shift = if leb 64 shift then 1 else bit_or (seen * 2 ^ shift % 2 ^ 64) 1

-- A counter that is not above the highest.
unfoldable pub accept_old : Window → ℕ → Bool × Window
accept_old w counter =
    let distance = w.highest - counter in
    if leb 64 distance
    then (false, w)
    else if bit_and w.seen (2 ^ distance) != 0
    then (false, w)
    else (true, record w { seen = bit_or w.seen (2 ^ distance) })

unfoldable pub accept : Window → ℕ → Bool × Window
accept w counter =
    if w.initialized
    then if ltb w.highest counter
      then (true, record w { seen = slide w.seen (counter - w.highest); highest = counter })
      else accept_old w counter
    else (true, record { highest = counter; seen = 1; initialized = true })

pub highest : Window → Option ℕ
highest w = if w.initialized then some w.highest else none
