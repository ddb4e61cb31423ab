-- ===== src/Jitter/Insert.antt =====
-- `insert` on the view of the window: which packets it takes, and where they go.
use wave.Common.{
  ℕ, ◌+◌, ◌%◌, ◌^◌, ◌<◌, ◌≡◌, ◌≢◌, refl, ap, sym, ◌∙◌, arith, Bool, true, ◌&&◌, some, ◌==◌, List,
  if◌then◌else◌, if_split, ltb, leb, length, get_or, get_or-set_self, get_or-set_ne,
}
use native.Mathlib.Decide.{ℕ_discrete}
use wave.Jitter.{
  Slot, Meta, JitterBuffer, empty_slot, max_slots, slot_size, sub16, slot_of, rebase, store, insert,
}
use wave.Jitter.Invariant.{IsValid, counted-IsValid, unbased_empty}
use wave.Jitter.Window.{held, is_none, packet_of-is_none, packet_of-free, packet_of-full}

-- How far `seq` is ahead of the next sequence number; the first packet sets that number.
abbrev pub offset : ℕ → JitterBuffer → ℕ
offset seq b = sub16 seq (rebase seq b).next_seq

-- The first packet of an empty window changes no packet held.
pub held-rebase : (seq k : ℕ) (b : JitterBuffer) → IsValid b → held (rebase seq b) k ≡ held b k
unfolding rebase
held-rebase seq k b v =
    if_split (λ x. held x k ≡ held b k) b.based b _ (λ _. refl)
      (λ e.
        packet_of-free (slot_of b (seq + k)) (unbased_empty b _ v e (omega arith))
        ∙ sym (packet_of-free (slot_of b (b.next_seq + k)) (unbased_empty b _ v e (omega arith))))

-- The slot of `seq` is the one at the distance of `seq`.
same_place : (seq n : ℕ) → seq < 2 ^ 16 → n < 2 ^ 16 → (n + sub16 seq n) % 16 ≡ seq % 16
same_place seq n h k = omega arith

rebase-next_in :
    (seq : ℕ) (b : JitterBuffer) → seq < 2 ^ 16 → IsValid b → (rebase seq b).next_seq < 2 ^ 16
unfolding rebase
rebase-next_in seq b h v = let inside = v.next_in in ground arith

rebase-counted :
    (seq n : ℕ) (b : JitterBuffer)
    → rebase seq (record b { packets_received = n })
      ≡ record (rebase seq b) { packets_received = n }
unfolding rebase
rebase-counted seq n b = ground arith

-- `insert` takes a packet exactly when it fits a slot, is less than 16 ahead, and none is held there.
insert-accepts :
    (seq : ℕ) (payload : List ℕ) (info : Meta) (b : JitterBuffer)
    → seq < 2 ^ 16
    → IsValid b
    → (insert seq payload info b).0 ≡ (
        leb (length payload) slot_size
        && (ltb (offset seq b) 16 && is_none (held b (offset seq b))))
unfolding insert
insert-accepts seq payload info b h v =
    rw
      (
        sym (held-rebase seq (offset seq b) b v),
        rebase-counted seq ((b.packets_received + 1) % 2 ^ 32) b,
        place,
        packet_of-is_none,
      )
      (ground arith)
  where
    place :
        slot_of (rebase seq b) ((rebase seq b).next_seq + offset seq b) ≡ slot_of (rebase seq b) seq
    place =
        ap (λ j. get_or (rebase seq b).slots j empty_slot)
          (same_place seq (rebase seq b).next_seq h (rebase-next_in seq b h v))

store-held :
    (seq : ℕ) (payload : List ℕ) (info : Meta) (b : JitterBuffer) (k : ℕ)
    → seq < 2 ^ 16
    → length b.slots ≡ 16
    → b.next_seq < 2 ^ 16
    → sub16 seq b.next_seq < 16
    → k < 16
    → held (store seq payload info b) k
      ≡ (if k == sub16 seq b.next_seq then some (payload, info) else held b k)
unfolding store
store-held seq payload info b k h size inside near small =
    elim (ℕ_discrete k (sub16 seq b.next_seq)) [
      | yes e ↦
          let here : (b.next_seq + k) % 16 ≡ seq % 16 = omega arith in
          rw (here, get_or-set_self b.slots (seq % 16) fresh empty_slot (omega arith))
            (packet_of-full fresh refl ∙ ground arith)
      | no ne ↦
          let there : seq % 16 ≢ (b.next_seq + k) % 16 = omega arith in
          rw (get_or-set_ne b.slots (seq % 16) ((b.next_seq + k) % 16) fresh empty_slot there)
            (ground arith)
    ]
  where
    fresh : Slot
    fresh = record { payload = payload; seq = seq; full = true; info = info }

slots-rebase : (seq : ℕ) (b : JitterBuffer) → (rebase seq b).slots ≡ b.slots
unfolding rebase
slots-rebase seq b = ground arith

-- Each distance holds what it held before, but for the packet that was taken.
place_of :
    (seq : ℕ) (payload : List ℕ) (info : Meta) (b : JitterBuffer) (k : ℕ)
    → seq < 2 ^ 16
    → IsValid b
    → k < 16
    → held (insert seq payload info b).1 k ≡ (
        if (insert seq payload info b).0 && (k == offset seq b)
        then some (payload, info)
        else held b k)
unfolding insert
place_of seq payload info b k h v near =
    if_split Right (ltb slot_size (length payload)) _ _ (λ _. refl)
      (λ _.
        if_split Right (leb max_slots (sub16 seq based.next_seq)) _ _ (λ _. same)
          (λ near_by.
            if_split Right (slot_of based seq).full _ _ (λ _. same)
              (λ _.
                store-held seq payload info based k h
                  (ap length (slots-rebase seq counted) ∙ v.size)
                  (rebase-next_in seq counted h counted_ok) (ground arith) near
                ∙ ground (
                  arith,
                  same,
                  ap (λ x. x.next_seq) (rebase-counted seq ((b.packets_received + 1) % 2 ^ 32) b),
                ))))
  where
    Right : Bool × JitterBuffer → Type 0
    Right r = held r.1 k ≡ (if r.0 && (k == offset seq b) then some (payload, info) else held b k)

    counted : JitterBuffer
    counted = record b { packets_received = (b.packets_received + 1) % 2 ^ 32 }

    based : JitterBuffer
    based = rebase seq counted

    counted_ok : IsValid counted
    counted_ok = counted-IsValid b ((b.packets_received + 1) % 2 ^ 32) v

    same : held based k ≡ held b k
    same =
        ap (λ x. held x k) (rebase-counted seq ((b.packets_received + 1) % 2 ^ 32) b)
        ∙ held-rebase seq k b v

packets-rebase : (seq : ℕ) (b : JitterBuffer) → (rebase seq b).packets_received ≡ b.packets_received
unfolding rebase
packets-rebase seq b = ground arith

insert-packets :
    (seq : ℕ) (payload : List ℕ) (info : Meta) (b : JitterBuffer)
    → (insert seq payload info b).1.packets_received ≡ (b.packets_received + 1) % 2 ^ 32
unfolding insert store
insert-packets seq payload info b =
    ground (
      arith,
      packets-rebase seq (record b { packets_received = (b.packets_received + 1) % 2 ^ 32 }),
    )

-- On a valid window, and for a `u16` sequence number, `insert` takes a packet exactly when it fits a slot,
-- is less than 16 ahead, and none is held at its distance: a second copy of a packet that is held is
-- refused. Afterwards each of the 16 distances holds what it held before, except that a packet that was
-- taken is held at its distance, and the packet is counted, taken or not.
pub insert-held :
    (seq : ℕ) (payload : List ℕ) (info : Meta) (b : JitterBuffer) (k : ℕ)
    → seq < 2 ^ 16
    → IsValid b
    → k < 16
    → ((insert seq payload info b).0 ≡ (
        leb (length payload) slot_size
        && (ltb (offset seq b) 16 && is_none (held b (offset seq b)))))
      × (held (insert seq payload info b).1 k ≡ (
          if (insert seq payload info b).0 && (k == offset seq b)
          then some (payload, info)
          else held b k))
      × ((insert seq payload info b).1.packets_received ≡ (b.packets_received + 1) % 2 ^ 32)
insert-held seq payload info b k h v near = (
  insert-accepts seq payload info b h v,
  place_of seq payload info b k h v near,
  insert-packets seq payload info b,
)
