-- ===== src/Jitter/Skip.antt =====
-- `skip_hole` declares lost exactly the sequences before the first packet held.
use wave.Common.{
  ℕ, zero, suc, ◌+◌, ◌-◌, ◌%◌, ◌^◌, ◌≤◌, ◌<◌, ◌≡◌, refl, ap, sym, ◌∙◌, arith, true, false, none,
  List, [], ◌∷◌, Bool-cases, inl, inr, length, get_or,
}
use native.Mathlib.Decide.{ℕ_discrete}
use wave.Jitter.{
  Slot, JitterBuffer, empty_slot, sub16, next16, slot_of, next_ready, waiting_on_hole, skip_loop,
  skip_hole,
}
use wave.Jitter.Invariant.{IsValid, one_if, count_full, head_ready}
use wave.Jitter.Advance.{advance, advance-IsValid}
use wave.Jitter.Window.{held, packet_of, packet_of-free}

-- What a search for the head has done after it passed `n` numbers of `b`.
pub record Skipped (b after : JitterBuffer) (n : ℕ) : Type 0 where
  pub ready : next_ready after ≡ true
  pub moved : after.next_seq ≡ (b.next_seq + n) % 2 ^ 16
  pub holes : (i : ℕ) → i < n → held b i ≡ none
  pub kept : (k : ℕ) → k + n < 16 → held after k ≡ held b (k + n)
  pub progress : next_ready b ≡ false → 1 ≤ n

at_once : (b : JitterBuffer) → IsValid b → next_ready b ≡ true → Skipped b b 0
at_once b v e = record {
  ready = e;
  moved = omega (arith, v.next_in);
  holes = λ i h. absurd (omega arith);
  kept = λ k h. ap (λ j. held b j) (omega arith);
  progress = λ e'. cc;
}

-- Not ready, and nothing at distance 0.
no_head :
    (b : JitterBuffer) → IsValid b → next_ready b ≡ false → (slot_of b b.next_seq).full ≡ false
no_head b v e = elim (Bool-cases (slot_of b b.next_seq).full) [
  | inl full ↦ cc (head_ready b v full)
  | inr free ↦ free
]

held-advance : (b : JitterBuffer) (k : ℕ) → IsValid b → held (advance b) k ≡ held b (k + 1)
held-advance b k v = ap (λ j. packet_of (get_or b.slots j empty_slot)) (omega (arith, v.next_in))

one_further :
    (b after : JitterBuffer) (n : ℕ)
    → IsValid b
    → next_ready b ≡ false
    → Skipped (advance b) after n
    → Skipped b after (n + 1)
one_further b after n v e s = record {
  ready = s.ready;
  moved = s.moved ∙ omega arith;
  holes = λ i h. elim (ℕ_discrete i 0) [
    | yes z ↦ rw z (
        ap (λ j. packet_of (slot_of b j)) (omega arith)
        ∙ packet_of-free (slot_of b b.next_seq) (no_head b v e))
    | no nz ↦
        let back : i ≡ i - 1 + 1 = omega arith in
        ap (λ j. held b j) back ∙ (sym (held-advance b (i - 1) v) ∙ s.holes (i - 1) (omega arith))
  ];
  kept =
      λ k h. s.kept k (omega arith) ∙ (held-advance b (k + n) v ∙ ap (λ j. held b j) (omega arith));
  progress = λ _. omega arith;
}

-- A packet held behind a missing head is one place nearer after the step.
deeper :
    (b : JitterBuffer) (j : ℕ)
    → IsValid b
    → next_ready b ≡ false
    → (slot_of b (b.next_seq + j)).full ≡ true
    → (1 ≤ j) × ((slot_of (advance b) (next16 b.next_seq + (j - 1))).full ≡ true)
deeper b j v e full = elim (ℕ_discrete j 0) [
  | yes z ↦ let here : b.next_seq + j ≡ b.next_seq = omega arith in cc (no_head b v e)
  | no nz ↦
      (omega arith, ap (λ i. (get_or b.slots i empty_slot).full) (omega (arith, v.next_in)) ∙ full)
]

-- The loop stops at the first packet held, if there is one within its rounds.
skip_loop_lem :
    (rounds j skipped : ℕ) (b : JitterBuffer)
    → IsValid b
    → j ≤ rounds
    → j < 16
    → (slot_of b (b.next_seq + j)).full ≡ true
    → (n : ℕ) × (n ≤ j)
      × ((skip_loop rounds b skipped).0 ≡ skipped + n)
      × Skipped b (skip_loop rounds b skipped).1 n
unfolding skip_loop
skip_loop_lem zero j skipped b v h near full =
    (0, omega arith, omega arith, at_once b v (head_ready b v (rw (at_head) at full)))
  where
    at_head : b.next_seq + j ≡ b.next_seq
    at_head = omega arith
skip_loop_lem (suc rounds) j skipped b v h near full = elim (Bool-cases (next_ready b)) [
  | inl e ↦ rw (e, skip_loop) (0, omega arith, omega arith, at_once b v e)
  | inr e ↦
      let (pos, ahead) = deeper b j v e full in
      let (n, small, count, s) =
        skip_loop_lem rounds (j - 1) (skipped + 1) (advance b) (advance-IsValid b v e) (omega arith)
          (omega arith) ahead in
      rw (e, skip_loop) (n + 1, omega arith, omega arith, one_further b _ n v e s)
]

full_exists :
    (xs : List Slot)
    → 0 < count_full xs
    → (i : ℕ) × (i < length xs) × ((get_or xs i empty_slot).full ≡ true)
full_exists [] h = absurd (omega arith)
full_exists (x ∷ xs) h = elim (Bool-cases x.full) [
  | inl e ↦ (0, omega arith, e)
  | inr e ↦
      let (i, small, full) = full_exists xs (omega (arith, ap one_if e)) in
      (suc i, omega arith, full)
]

-- Some packet is held, at a distance below 16.
held_somewhere :
    (b : JitterBuffer)
    → IsValid b
    → 0 < b.fill_count
    → (j : ℕ) × (j < 16) × ((slot_of b (b.next_seq + j)).full ≡ true)
held_somewhere b v h =
    let (i, small, full) = full_exists b.slots (omega (arith, v.counted)) in
    let p = v.placed i (omega (arith, v.size)) full in
    let s = (get_or b.slots i empty_slot).seq in
    (
      sub16 s b.next_seq,
      p.window,
      ap (λ k. (get_or b.slots k empty_slot).full) (omega (arith, v.next_in, p.seq_in, p.index))
          ∙ full,
    )

-- What `skip_hole` has done after it passed over `n` numbers.
pub record HoleSkipped (b after : JitterBuffer) (n : ℕ) : Type 0 where
  pub some_skipped : 1 ≤ n
  pub few : n < 16
  pub ready : next_ready after ≡ true
  pub moved : after.next_seq ≡ (b.next_seq + n) % 2 ^ 16
  pub holes : (i : ℕ) → i < n → held b i ≡ none
  pub kept : (k : ℕ) → k + n < 16 → held after k ≡ held b (k + n)
  pub lost : after.packets_lost ≡ (b.packets_lost + n) % 2 ^ 32
  pub marked : after.skipped ≡ true

waiting_means :
    (b : JitterBuffer) → waiting_on_hole b ≡ true → (0 < b.fill_count) × (next_ready b ≡ false)
unfolding waiting_on_hole
waiting_means b w = ground arith

-- Readiness does not look at the loss counters.
ready_marked :
    (b : JitterBuffer) (n : ℕ)
    → next_ready (record b { packets_lost = n; skipped = true }) ≡ next_ready b
unfolding next_ready
ready_marked b n = refl

-- On a valid window in which packets wait behind a hole, `skip_hole` passes over at least one and
-- at most 15 numbers, at none of which a packet is held; afterwards the head can be released, every
-- packet held is held still, nearer by that many places, the numbers are counted as lost, and the
-- gap is marked.
pub skip_hole_lem :
    (b : JitterBuffer)
    → IsValid b
    → waiting_on_hole b ≡ true
    → HoleSkipped b (skip_hole b).1 (skip_hole b).0
unfolding skip_hole
skip_hole_lem b v w =
    let (filled, hole) = waiting_means b w in
    let (j, near, full) = held_somewhere b v filled in
    let (n, small, count, s) = skip_loop_lem 16 j 0 b v (omega arith) near full in
    rw w (record {
      some_skipped = omega (arith, s.progress hole);
      few = omega arith;
      ready =
          ready_marked (skip_loop 16 b 0).1 ((b.packets_lost + (skip_loop 16 b 0).0) % 2 ^ 32)
          ∙ s.ready;
      moved = rw count (s.moved ∙ omega arith);
      holes = λ i h. s.holes i (omega arith);
      kept = λ k h. s.kept k (omega arith) ∙ ap (λ i. held b (k + i)) (omega arith);
      lost = refl;
      marked = refl;
    })

-- Without a hole to skip nothing changes.
pub skip_hole_idle : (b : JitterBuffer) → waiting_on_hole b ≡ false → skip_hole b ≡ (0, b)
unfolding skip_hole
skip_hole_idle b w = rw w
