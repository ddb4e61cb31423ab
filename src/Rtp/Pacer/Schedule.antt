-- ===== src/Rtp/Pacer/Schedule.antt =====
-- Every packet has its place in the schedule, whenever the pacer is polled.
use wave.Common.{
  ℕ, suc, ◌+◌, ◌-◌, ◌*◌, ◌%◌, ◌^◌, ◌≤◌, ◌<◌, ◌≡◌, ◌∙◌, refl, arith, min, true, if◌then◌else◌, ltb,
  List, [], ◌∷◌, length, Bool-cases, inl, inr,
}
use native.Mathlib.Nat.{suc-mul}
use wave.Rtp.Pacer.{wait, send, Pacer, reset, step, poll_started, poll}

-- The pacer after polls at these times.
unfoldable pub polled : List ℕ → Pacer → Pacer
polled [] p = p
polled (now ∷ times) p = polled times (poll now p).1

-- A clock that is due at `due`, and is moved on by one period at every time that has reached it.
unfoldable pub sends : ℕ → List ℕ → ℕ → ℕ
sends period [] due = 0
sends period (now ∷ times) due =
    let later = sends period times (due + period) in
    let same = sends period times due in if ltb now due then same else suc later

-- The pacer in the schedule.
abbrev pub at_slot : ℕ → ℕ → ℕ → ℕ → Pacer
at_slot clock_rate ptime next timestamp = record {
  clock_rate = clock_rate;
  ptime_ms = ptime;
  next_ms = next;
  timestamp = timestamp;
  started = true;
}

same_step :
    (rate ptime next timestamp : ℕ)
    → step (at_slot rate ptime next timestamp) ≡ step (at_slot rate ptime 0 0)
unfolding step
same_step rate ptime next timestamp = refl

polled-slot :
    (rate ptime next timestamp : ℕ) (times : List ℕ)
    → timestamp < 2 ^ 32
    → next + length times * ptime < 2 ^ 64
    → polled times (at_slot rate ptime next timestamp)
      ≡ at_slot rate ptime
          (next + sends ptime times next * ptime)
          ((timestamp + sends ptime times next * step (at_slot rate ptime 0 0)) % 2 ^ 32)
unfolding polled sends poll poll_started
polled-slot rate ptime next timestamp [] small room =
    let n : next + 0 * ptime ≡ next = omega arith in
    let t : (timestamp + 0 * step (at_slot rate ptime 0 0)) % 2 ^ 32 ≡ timestamp = omega arith in
    rw (n, t) refl
polled-slot rate ptime next timestamp (now ∷ times) small room =
    let grown = suc-mul (length times) ptime in
    let s = step (at_slot rate ptime 0 0) in
    let later = sends ptime times (next + ptime) in
    let n : next + suc later * ptime ≡ next + ptime + later * ptime =
      omega (arith, suc-mul later ptime) in
    let cut : min (next + ptime) (2 ^ 64 - 1) ≡ next + ptime = omega (arith, grown) in
    let t : (timestamp + suc later * s) % 2 ^ 32 ≡ ((timestamp + s) % 2 ^ 32 + later * s) % 2 ^ 32 =
      omega (arith, suc-mul later s) in
    elim (Bool-cases (ltb now next)) [
      | inl early ↦
          rw early (polled-slot rate ptime next timestamp times small (omega (arith, grown)))
      | inr due ↦
          rw (due, n, t, cut, same_step rate ptime next timestamp)
            (polled-slot rate ptime (next + ptime) ((timestamp + s) % 2 ^ 32) times (omega arith)
              (omega (arith, grown)))
    ]

-- The deadline of the packet behind those that were due at these times.
abbrev pub due_ms : Pacer → ℕ → List ℕ → ℕ
due_ms p start times = start + sends p.ptime_ms times start * p.ptime_ms

step-bounds : (p : Pacer) → (1 ≤ step p) × (step p < 2 ^ 32)
unfolding step
step-bounds p = omega arith

restored : (t s : ℕ) → t < 2 ^ 32 → s < 2 ^ 32 → ((t + s) % 2 ^ 32 + 2 ^ 32 - s) % 2 ^ 32 ≡ t
restored t s ht hs = omega arith

-- A pacer that is reset and then polled any number of times, at any times, has counted one period and one
-- step for each of the packets that were due, while the deadline stays below 2^64. The next poll waits for
-- the deadline of the next packet, and from then on sends it with its own timestamp, modulo
-- 2^32, and with the delay, at most 2^32 - 1.
pub poll-scheduled :
    (p : Pacer) (start timestamp now : ℕ) (times : List ℕ)
    → timestamp < 2 ^ 32
    → start + length times * p.ptime_ms < 2 ^ 64
    → (poll now (polled times (reset start timestamp p))).0 ≡ (
        if ltb now (due_ms p start times)
        then wait (due_ms p start times)
        else send
            ((timestamp + sends p.ptime_ms times start * step p) % 2 ^ 32)
            (min (now - due_ms p start times) (2 ^ 32 - 1)))
unfolding poll poll_started reset
poll-scheduled p start timestamp now times small room =
    let k = sends p.ptime_ms times start in
    let due = start + k * p.ptime_ms in
    let t = (timestamp + k * step p) % 2 ^ 32 in
    let same : step (at_slot p.clock_rate p.ptime_ms 0 0) ≡ step p = unfold step in refl in
    let slot : polled times (at_slot p.clock_rate p.ptime_ms start timestamp)
        ≡ at_slot p.clock_rate p.ptime_ms due t =
      polled-slot p.clock_rate p.ptime_ms start timestamp times small room ∙ rw same refl in
    let own : step (at_slot p.clock_rate p.ptime_ms due t) ≡ step p = unfold step in refl in
    let (low, high) = step-bounds p in
    rw slot (elim (Bool-cases (ltb now due)) [
      | inl early ↦ rw early refl
      | inr late ↦ rw (late, own, restored t (step p) (omega arith) high) refl
    ])
