-- ===== src/Jitter/Invariant.antt =====
-- The representation invariant of the reorder window, and that every method keeps it.
use wave.Common.{
  ℕ, zero, suc, ◌+◌, ◌%◌, ◌^◌, ◌≤◌, ◌<◌, ◌≡◌, ◌≢◌, ◌⊎◌, refl, ap, ◌∙◌, arith, Bool, true, false,
  List, [], ◌∷◌, if◌then◌else◌, if_split, ltb, leb, Bool-cases, inl, inr, length, get_or, set,
  length-set, get_or-set_self, get_or-set_ne, get_or-replicate,
}
use native.Mathlib.Decide.{ℕ_discrete}
use wave.Jitter.{
  Slot, Meta, JitterBuffer, empty_slot, max_slots, slot_size, new, sub16, slot_of, rebase, store,
  insert, next_ready,
}

abbrev pub one_if : Bool → ℕ
one_if b = if b then 1 else 0

abbrev pub count_full : List Slot → ℕ
count_full [] = 0
count_full (s ∷ rest) = one_if s.full + count_full rest

-- Where a full slot stands, and that its sequence number lies in the window.
pub record Placed (next_seq i : ℕ) (s : Slot) : Type 0 where
  pub seq_in : s.seq < 2 ^ 16
  pub index : s.seq % 16 ≡ i
  pub window : sub16 s.seq next_seq < 16

pub record IsValid (b : JitterBuffer) : Type 0 where
  pub size : length b.slots ≡ 16
  pub next_in : b.next_seq < 2 ^ 16
  pub based_first : (i : ℕ) → i < 16 → (get_or b.slots i empty_slot).full ≡ true → b.based ≡ true
  pub placed :
      (i : ℕ)
      → i < 16
      → (get_or b.slots i empty_slot).full ≡ true
      → Placed b.next_seq i (get_or b.slots i empty_slot)
  pub counted : b.fill_count ≡ count_full b.slots

pub count_full-set :
    (xs : List Slot) (i : ℕ) (v : Slot)
    → i < length xs
    → count_full (set xs i v) + one_if (get_or xs i empty_slot).full ≡ count_full xs + one_if v.full
count_full-set [] i v h = absurd (omega arith)
count_full-set (x ∷ xs) zero v h = omega arith
count_full-set (x ∷ xs) (suc i) v h = omega (arith, count_full-set xs i v (omega arith))

pub count_full-le : (xs : List Slot) → count_full xs ≤ length xs
count_full-le [] = omega arith
count_full-le (x ∷ xs) = elim (Bool-cases x.full) [
  | inl e ↦ rw e (omega (arith, count_full-le xs))
  | inr e ↦ rw e (omega (arith, count_full-le xs))
]

-- A full slot whose number is the next one is the head of the window, and the others are behind it.
pub behind_head :
    (b : JitterBuffer) (i : ℕ)
    → IsValid b
    → i < 16
    → (get_or b.slots i empty_slot).full ≡ true
    → (i ≡ b.next_seq % 16) ⊎ (1 ≤ sub16 (get_or b.slots i empty_slot).seq b.next_seq)
behind_head b i v h full =
    let p = v.placed i h full in
    elim (ℕ_discrete i (b.next_seq % 16)) [ yes e ↦ inl e | no ne ↦ inr (omega arith) ]

-- In the slot of the head there is the head: a full slot there makes the next sequence ready.
pub head_ready :
    (b : JitterBuffer) → IsValid b → (slot_of b b.next_seq).full ≡ true → next_ready b ≡ true
unfolding next_ready
head_ready b v full =
    let p = v.placed (b.next_seq % 16) (omega arith) full in
    let known = v.based_first (b.next_seq % 16) (omega arith) full in ground arith

-- No slot is full yet.
pub unbased_empty :
    (b : JitterBuffer) (i : ℕ)
    → IsValid b
    → b.based ≡ false
    → i < 16
    → (get_or b.slots i empty_slot).full ≡ false
unbased_empty b i v e h = elim (Bool-cases (get_or b.slots i empty_slot).full) [
  | inl full ↦ cc (v.based_first i h full)
  | inr free ↦ free
]

-- `new` and `reset` give a valid, empty window.
pub new-IsValid : IsValid new
new-IsValid = record {
  size = refl;
  next_in = omega arith;
  based_first = λ i h full. cc (ap (λ s. s.full) (get_or-replicate 16 i empty_slot));
  placed = λ i h full. cc (ap (λ s. s.full) (get_or-replicate 16 i empty_slot));
  counted = refl;
}

-- Changing the sequence numbers of an empty window breaks nothing.
pub rebase-IsValid :
    (seq : ℕ) (b : JitterBuffer) → seq < 2 ^ 16 → IsValid b → IsValid (rebase seq b)
unfolding rebase
rebase-IsValid seq b h v =
    if_split IsValid b.based b _ (λ e. v)
      (λ e. record {
        size = v.size;
        next_in = h;
        based_first = λ i k full. refl;
        placed = λ i k full. cc (unbased_empty b i v e k);
        counted = v.counted;
      })

-- Counting the packets received concerns no slot.
pub counted-IsValid :
    (b : JitterBuffer) (n : ℕ) → IsValid b → IsValid (record b { packets_received = n })
counted-IsValid b n v = record {
  size = v.size;
  next_in = v.next_in;
  based_first = v.based_first;
  placed = v.placed;
  counted = v.counted;
}

-- Storing in a free slot of the window of a based buffer.
store-IsValid :
    (seq : ℕ) (payload : List ℕ) (info : Meta) (b : JitterBuffer)
    → seq < 2 ^ 16
    → IsValid b
    → b.based ≡ true
    → sub16 seq b.next_seq < 16
    → (slot_of b seq).full ≡ false
    → IsValid (store seq payload info b)
unfolding store
store-IsValid seq payload info b h v known near free = record {
  size = length-set b.slots (seq % 16) fresh ∙ v.size;
  next_in = v.next_in;
  based_first = λ i k full. known;
  placed = λ i k full. elim (ℕ_discrete (seq % 16) i) [
    | yes e ↦
        rw (← e, get_or-set_self b.slots (seq % 16) fresh empty_slot (omega (arith, v.size)))
          (record { seq_in = h; index = refl; window = near })
    | no ne ↦ rw (other i ne) (v.placed i k (rw (other i ne) at full))
  ];
  counted = omega (
    arith,
    count_full-set b.slots (seq % 16) fresh (omega (arith, v.size)),
    ap one_if free,
    count_full-le (set b.slots (seq % 16) fresh),
    length-set b.slots (seq % 16) fresh,
    v.size,
    v.counted,
  );
}
  where
    fresh : Slot
    fresh = record { payload = payload; seq = seq; full = true; info = info }

    other :
        (i : ℕ)
        → seq % 16 ≢ i
        → get_or (set b.slots (seq % 16) fresh) i empty_slot ≡ get_or b.slots i empty_slot
    other i ne = get_or-set_ne b.slots (seq % 16) i fresh empty_slot ne

rebase-based : (seq : ℕ) (b : JitterBuffer) → (rebase seq b).based ≡ true
unfolding rebase
rebase-based seq b = ground arith

-- `insert` of a `u16` sequence number keeps a window valid, whatever it decides.
pub insert-IsValid :
    (seq : ℕ) (payload : List ℕ) (info : Meta) (b : JitterBuffer)
    → seq < 2 ^ 16
    → IsValid b
    → IsValid (insert seq payload info b).1
unfolding insert
insert-IsValid seq payload info b h v =
    if_split Keeps (ltb slot_size (length payload)) _ _ (λ _. counted_ok)
      (λ _.
        if_split Keeps (leb max_slots (sub16 seq based.next_seq)) _ _ (λ _. based_ok)
          (λ near.
            if_split Keeps (slot_of based seq).full _ _ (λ _. based_ok)
              (λ free.
                store-IsValid seq payload info based h based_ok (rebase-based seq counted)
                  (ground arith) free)))
  where
    Keeps : Bool × JitterBuffer → Type 0
    Keeps r = IsValid r.1

    counted : JitterBuffer
    counted = record b { packets_received = (b.packets_received + 1) % 2 ^ 32 }

    based : JitterBuffer
    based = rebase seq counted

    counted_ok : IsValid counted
    counted_ok = counted-IsValid b ((b.packets_received + 1) % 2 ^ 32) v

    based_ok : IsValid based
    based_ok = rebase-IsValid seq counted h counted_ok
