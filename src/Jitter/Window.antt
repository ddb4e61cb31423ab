-- ===== src/Jitter/Window.antt =====
-- The reorder window as its caller sees it: for each distance from the next sequence number, the
-- packet held there. The methods are described on that view, over valid buffers.
use wave.Common.{
  ℕ, ◌+◌, ◌%◌, ◌<◌, ◌≡◌, ◌≢◌, refl, ap, arith, Bool, true, false, not, Option, none, some, ◌==◌,
  List, if◌then◌else◌, Bool-cases, inl, inr, get_or-set_self, get_or-set_ne,
}
use mathlib.Core.Option
use native.Mathlib.Decide.{ℕ_discrete}
use wave.Jitter.{
  Slot, Meta, Released, JitterBuffer, empty_slot, sub16, next16, slot_of, next_ready, release, peek,
}
use wave.Jitter.Invariant.{IsValid, head_ready}
use wave.Jitter.Advance.{ready-slot, free-not_ready}

abbrev pub Packet : Type 0
Packet = List ℕ × Meta

abbrev pub is_none {ℓ} : {A : Type ℓ} → Option A → Bool
is_none none = true
is_none (some a) = false

unfoldable pub packet_of : Slot → Option Packet
packet_of s = if s.full then some (s.payload, s.info) else none

-- The packet at distance `k` from the next sequence number.
abbrev pub held : JitterBuffer → ℕ → Option Packet
held b k = packet_of (slot_of b (b.next_seq + k))

pub packet_of-is_none : (s : Slot) → is_none (packet_of s) ≡ not s.full
unfolding packet_of
packet_of-is_none s = ground arith

pub packet_of-free : (s : Slot) → s.full ≡ false → packet_of s ≡ none
unfolding packet_of
packet_of-free s e = ground arith

pub packet_of-full : (s : Slot) → s.full ≡ true → packet_of s ≡ some (s.payload, s.info)
unfolding packet_of
packet_of-full s e = ground arith

-- A full slot stands at the distance of its sequence number.
pub distance :
    (b : JitterBuffer) (k : ℕ)
    → IsValid b
    → k < 16
    → (slot_of b (b.next_seq + k)).full ≡ true
    → sub16 (slot_of b (b.next_seq + k)).seq b.next_seq ≡ k
distance b k v h full =
    let p = v.placed ((b.next_seq + k) % 16) (omega arith) full in
    let inside = v.next_in in let a = p.seq_in in let w = p.window in let x = p.index in omega arith

-- What `peek` shows of a packet.
abbrev pub released : JitterBuffer → Packet → Released
released b (payload, info) = record {
  seq = b.next_seq;
  info = info;
  payload = payload;
  lost_before = b.skipped;
}

held_head : (b : JitterBuffer) → held b 0 ≡ packet_of (slot_of b b.next_seq)
held_head b = ap (λ j. packet_of (slot_of b j)) (omega arith)

-- On a valid window `peek` shows the packet at distance 0 with its number and whether packets
-- before it were skipped, and nothing when there is none.
pub peek-held : (b : JitterBuffer) → IsValid b → peek b ≡ Option.map (released b) (held b 0)
unfolding peek
peek-held b v = elim (Bool-cases (slot_of b b.next_seq).full) [
  | inl full ↦
      let ready = head_ready b v full in
      let (_, _, here) = ready-slot b ready in
      rw (held_head b, packet_of-full (slot_of b b.next_seq) full) (ground arith)
  | inr free ↦
      let idle = free-not_ready b free in
      rw (held_head b, packet_of-free (slot_of b b.next_seq) free) (ground arith)
]

-- On a valid window whose head is ready, `release` drops the packet at distance 0 and moves every
-- other one place forward, and the last place is empty.
pub release-held :
    (b : JitterBuffer) (k : ℕ)
    → IsValid b
    → next_ready b ≡ true
    → k < 16
    → held (release b) k ≡ (if k == 15 then none else held b (k + 1))
unfolding release
release-held b k v ready h = rw (ready) (elim (ℕ_discrete k 15) [
  | yes e ↦
      rw (e, last)
        (rw (get_or-set_self b.slots head freed empty_slot (omega (arith, v.size)))
          (packet_of-free freed refl))
  | no ne ↦
      rw
        (
          next_place,
          get_or-set_ne b.slots head ((b.next_seq + (k + 1)) % 16) freed empty_slot (elsewhere ne),
        )
        (ground arith)
])
  where
    head : ℕ
    head = b.next_seq % 16

    freed : Slot
    freed = record (slot_of b b.next_seq) { full = false }

    last : (next16 b.next_seq + 15) % 16 ≡ head
    last = omega (arith, v.next_in)

    next_place : (next16 b.next_seq + k) % 16 ≡ (b.next_seq + (k + 1)) % 16
    next_place = omega (arith, v.next_in)

    elsewhere : k ≢ 15 → head ≢ (b.next_seq + (k + 1)) % 16
    elsewhere ne = omega arith
