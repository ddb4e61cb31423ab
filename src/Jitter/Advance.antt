-- ===== src/Jitter/Advance.antt =====
-- `release`, and the steps of `skip_hole`, keep the invariant.
use wave.Common.{
  ℕ, zero, suc, ◌+◌, ◌%◌, ◌≤◌, ◌<◌, ◌≡◌, ◌≢◌, ap, ◌∙◌, arith, true, false, not, if_split,
  Bool-cases, inl, inr, get_or, set, length-set, get_or-set_self, get_or-set_ne,
}
use native.Mathlib.Decide.{ℕ_discrete}
use wave.Jitter.{
  Slot, JitterBuffer, empty_slot, sub16, next16, slot_of, next_ready, waiting_on_hole, skip_loop,
  skip_hole, release,
}
use wave.Jitter.Invariant.{IsValid, one_if, count_full-set, count_full-le, behind_head, head_ready}

-- What `next_ready` says of the slot of the head.
pub ready-slot :
    (b : JitterBuffer)
    → next_ready b ≡ true
    → (b.based ≡ true)
      × ((slot_of b b.next_seq).full ≡ true)
      × ((slot_of b b.next_seq).seq ≡ b.next_seq)
unfolding next_ready
ready-slot b h = ground arith

pub free-not_ready : (b : JitterBuffer) → (slot_of b b.next_seq).full ≡ false → next_ready b ≡ false
unfolding next_ready
free-not_ready b h = ground arith

-- With no head to release, every full slot is behind the head.
pub hole_behind :
    (b : JitterBuffer) (i : ℕ)
    → IsValid b
    → next_ready b ≡ false
    → i < 16
    → (get_or b.slots i empty_slot).full ≡ true
    → 1 ≤ sub16 (get_or b.slots i empty_slot).seq b.next_seq
hole_behind b i v hole h full = elim (behind_head b i v h full) [
  | inl e ↦ cc (head_ready b v (rw e at full))
  | inr behind ↦ behind
]

abbrev pub advance : JitterBuffer → JitterBuffer
advance b = record b { next_seq = next16 b.next_seq }

pub advance-IsValid : (b : JitterBuffer) → IsValid b → next_ready b ≡ false → IsValid (advance b)
advance-IsValid b v hole = record {
  size = v.size;
  next_in = omega arith;
  based_first = v.based_first;
  placed = λ i k full.
      let p = v.placed i k full in
      let behind = hole_behind b i v hole k full in
      let near = v.next_in in record { seq_in = p.seq_in; index = p.index; window = omega arith };
  counted = v.counted;
}

pub skip_loop-IsValid :
    (rounds skipped : ℕ) (b : JitterBuffer) → IsValid b → IsValid (skip_loop rounds b skipped).1
unfolding skip_loop
skip_loop-IsValid zero skipped b v = v
skip_loop-IsValid (suc rounds) skipped b v = elim (Bool-cases (next_ready b)) [
  | inl e ↦ rw (e, skip_loop) v
  | inr e ↦
      rw (e, skip_loop) (skip_loop-IsValid rounds (skipped + 1) (advance b) (advance-IsValid b v e))
]

-- `skip_hole` keeps a window valid.
pub skip_hole-IsValid : (b : JitterBuffer) → IsValid b → IsValid (skip_hole b).1
unfolding skip_hole
skip_hole-IsValid b v =
    if_split (λ (r : ℕ × JitterBuffer). IsValid r.1) (not (waiting_on_hole b)) _ _ (λ _. v)
      (λ _.
        let w = skip_loop-IsValid 16 0 b v in
        record {
          size = w.size;
          next_in = w.next_in;
          based_first = w.based_first;
          placed = w.placed;
          counted = w.counted;
        })

-- `release` keeps a window valid.
pub release-IsValid : (b : JitterBuffer) → IsValid b → IsValid (release b)
unfolding release
release-IsValid b v =
    if_split IsValid (not (next_ready b)) b _ (λ _. v)
      (λ e.
        let (known, full, here) = ready-slot b (ground arith) in
        record {
          size = length-set b.slots head freed ∙ v.size;
          next_in = omega arith;
          based_first = λ i k f. known;
          placed = λ i k f. elim (ℕ_discrete head i) [
            | yes e ↦ cc at_head
            | no ne ↦ rw (other i ne) (
                let p = v.placed i k (rw (other i ne) at f) in
                let behind = behind_head b i v k (rw (other i ne) at f) in
                let near = v.next_in in
                record { seq_in = p.seq_in; index = p.index; window = omega arith })
          ];
          counted = omega (
            arith,
            count_full-set b.slots head freed (omega (arith, v.size)),
            ap one_if full,
            v.counted,
            count_full-le b.slots,
            v.size,
          );
        })
  where
    head : ℕ
    head = b.next_seq % 16

    freed : Slot
    freed = record (slot_of b b.next_seq) { full = false }

    at_head : (get_or (set b.slots head freed) head empty_slot).full ≡ false
    at_head =
        ap (λ s. s.full) (get_or-set_self b.slots head freed empty_slot (omega (arith, v.size)))

    other :
        (i : ℕ)
        → head ≢ i
        → get_or (set b.slots head freed) i empty_slot ≡ get_or b.slots i empty_slot
    other i ne = get_or-set_ne b.slots head i freed empty_slot ne
