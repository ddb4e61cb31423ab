-- ===== src/Srtp/Rollover.antt =====
-- The rollover counter that a receiver assumes, and the packet indices of a stream:
-- `estimate_roc` and `packet_index` of modules/common/srtp_core.rs as the AES-GCM branch of
-- modules/foundation/rtp/mod.rs uses them.
use wave.Common.{
  ℕ, ◌+◌, ◌*◌, ◌/◌, ◌%◌, ◌^◌, ◌≤◌, ◌<◌, ◌≡◌, ◌≢◌, refl, sym, ◌∙◌, arith, Bool, true, false, none,
  some, List, [], ◌∷◌, if◌then◌else◌, All, ◌⊎◌, inl, inr, if_split,
}
use wave.Common.Bits.{bit_or_disjoint}
use wave.Common.Bytes.{IsU16}
use wave.Srtp.{Replay, accept, highest, estimate_roc, packet_index}
use native.Mathlib.Decide.{dec_lt}

-- `prior`: the highest index so far, or the sequence number itself.
unfoldable pub prior : Replay → ℕ → ℕ
prior w sequence = elim (highest w) [ none ↦ sequence | some i ↦ i ]

-- The index a packet is taken to have; the counter is cast to 32 bits.
unfoldable pub index_of : ℕ → ℕ → ℕ
index_of last sequence = packet_index (estimate_roc last sequence % 2 ^ 32) sequence

-- A packet of one source: its sequence number, and at which index its tag verifies.
pub record Packet : Type 0 where
  pub sequence : ℕ
  pub authentic : ℕ → Bool

-- A packet whose tag does not verify leaves the window as it is.
unfoldable pub receive : Replay → Packet → Bool × Replay
receive w p =
    let index = index_of (prior w p.sequence) p.sequence in
    if p.authentic index then accept w index else (false, w)

unfoldable pub after : Replay → List Packet → Replay
after w [] = w
after w (p ∷ ps) = after (receive w p).1 ps

packet_index_lem :
    (roc sequence : ℕ) → IsU16 sequence → packet_index roc sequence ≡ roc * 2 ^ 16 + sequence
unfolding packet_index
packet_index_lem roc sequence h = bit_or_disjoint 16 roc sequence h

-- While the sequence numbers stay in one half of a rollover, the assumed index is the real one.
pub same_half-index_of :
    (last index : ℕ)
    → index < 2 ^ 48
    → last / 2 ^ 15 ≡ index / 2 ^ 15
    → index_of last (index % 2 ^ 16) ≡ index
unfolding index_of estimate_roc
same_half-index_of last index h e = packet_index_lem _ (index % 2 ^ 16) (omega arith) ∙ ground arith

-- When the index of a packet and the highest index so far are less than 2^15 apart and lie in
-- different rollovers, the assumed index is not the real one.
pub wrap-index_of :
    (last index : ℕ)
    → last < 2 ^ 48
    → index < 2 ^ 48
    → last < index + 2 ^ 15
    → index < last + 2 ^ 15
    → last / 2 ^ 16 ≢ index / 2 ^ 16
    → index_of last (index % 2 ^ 16) ≢ index
unfolding index_of estimate_roc
wrap-index_of last index hl hi a b ne e =
    let e' =
      sym (
        packet_index_lem (estimate_roc last (index % 2 ^ 16) % 2 ^ 32) (index % 2 ^ 16)
          (omega arith))
      ∙ e in
    absurd (ground arith)

-- The window has a highest index, in the upper half of its rollover.
abbrev pub IsUpper : Replay → Type 0
IsUpper w = (w.initialized ≡ true) × (w.highest < 2 ^ 48) × (0x8000 ≤ w.highest % 2 ^ 16)

index_of-bound :
    (last sequence : ℕ)
    → last < 2 ^ 48
    → IsU16 sequence
    → 0x8000 ≤ last % 2 ^ 16
    → index_of last sequence ≤ last / 2 ^ 16 * 2 ^ 16 + sequence
unfolding index_of estimate_roc
index_of-bound last sequence hl hs up =
    let e = packet_index_lem (estimate_roc last sequence % 2 ^ 32) sequence hs in ground arith

accept-highest :
    (w : Replay) (i : ℕ)
    → w.initialized ≡ true
    → ((accept w i).1.initialized ≡ true)
      × (((accept w i).1.highest ≡ w.highest) ⊎ ((w.highest < i) × ((accept w i).1.highest ≡ i)))
unfolding accept
accept-highest w i e =
    rw e (elim (dec_lt w.highest i) [ yes up ↦ ground arith | no down ↦ ground arith ])

-- The window after a packet: its highest index is still in the upper half of the same rollover.
abbrev IsWithin : Replay → Replay → Type 0
IsWithin w v = IsUpper v × (v.highest / 2 ^ 16 ≡ w.highest / 2 ^ 16)

accept-IsWithin :
    (w : Replay) (i : ℕ)
    → IsUpper w
    → i < (w.highest / 2 ^ 16 + 1) * 2 ^ 16
    → IsWithin w (accept w i).1
accept-IsWithin w i (known, small, upper) b =
    let (still, cases) = accept-highest w i known in
    elim cases [
      | inl e ↦ ((still, omega (arith, e), omega (arith, e)), omega (arith, e))
      | inr (up, e) ↦ ((still, omega (arith, e), omega (arith, e)), omega (arith, e))
    ]

prior-highest : (w : Replay) (sequence : ℕ) → w.initialized ≡ true → prior w sequence ≡ w.highest
unfolding prior highest
prior-highest w sequence e = rw e refl

receive-IsWithin :
    (w : Replay) (p : Packet) → IsU16 p.sequence → IsUpper w → IsWithin w (receive w p).1
unfolding receive
receive-IsWithin w p hs (known, small, upper) = rw (prior-highest w p.sequence known) (
    if_split (λ (r : Bool × Replay). IsWithin w r.1) (p.authentic (index_of w.highest p.sequence))
      (accept w (index_of w.highest p.sequence)) (false, w)
      (λ _.
        accept-IsWithin w (index_of w.highest p.sequence) (known, small, upper)
          (omega (arith, index_of-bound w.highest p.sequence small hs upper)))
      (λ _. ((known, small, upper), refl)))

-- A receiver whose highest index lies in the upper half of a rollover never leaves that rollover:
-- whatever packets come, with 16-bit sequence numbers and verifying at whatever indices.
pub after-rollover :
    (w : Replay) (ps : List Packet)
    → All (λ (p : Packet). IsU16 p.sequence) ps
    → IsUpper w
    → (after w ps).highest / 2 ^ 16 ≡ w.highest / 2 ^ 16
unfolding after
after-rollover w [] h u = refl
after-rollover w (p ∷ ps) (hp, h) u =
    let (u', e) = receive-IsWithin w p hp u in after-rollover (receive w p).1 ps h u' ∙ e
