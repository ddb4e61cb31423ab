-- ===== src/Stun/Txn.antt =====
-- modules/common/stun_txn.rs: the client transaction, its identifier and the result record. A method
-- that changes `self` returns the new transaction.
pub mod Schedule
pub mod Result
use wave.Common.{
  ℕ, zero, suc, ◌+◌, ◌-◌, ◌*◌, ◌%◌, ◌^◌, Bool, true, false, Option, none, some, List, [], ◌∷◌, ◌++◌,
  ◌||◌, min, leb, ltb, ◌==◌, ◌!=◌, if◌then◌else◌, bit_or, bit_xor, length, copy_at, get_or,
}
use wave.Common.Bytes.{le16, be32, be64, from16}

abbrev pub rto_ms : ℕ
rto_ms = 500

-- `STUN_RC` and `STUN_RM`
abbrev pub rc : ℕ
rc = 7

abbrev pub rm : ℕ
rm = 16

-- `u64::MAX`
abbrev pub u64_max : ℕ
u64_max = 0xffffffffffffffff

-- `StunTxnAction`
pub data Action : Type 0 where
  send : (attempt : ℕ) → Action
  wait timed_out : Action

-- `StunTxn`
pub record Txn : Type 0 where
  pub id : List ℕ
  pub sent : ℕ
  pub due_ms : ℕ
  pub done : ℕ

unfoldable pub begin : List ℕ → ℕ → Txn
begin id now_ms = record { id = id; sent = 0; due_ms = now_ms; done = 0 }

unfoldable pub interval_ms : ℕ → ℕ
interval_ms sent = if leb rc sent then rm * rto_ms else min (rto_ms * 2 ^ min (sent - 1) 16) u64_max

unfoldable pub poll : Txn → ℕ → Action
poll t now_ms =
    if t.done != 0
    then wait
    else if ltb now_ms t.due_ms
    then wait
    else if leb rc t.sent
    then timed_out
    else send (t.sent + 1)

unfoldable pub sent_at : Txn → ℕ → Txn
unfolding interval_ms
sent_at t now_ms =
    if t.done != 0 || leb rc t.sent
    then t
    else record t { sent = t.sent + 1; due_ms = min (now_ms + interval_ms (t.sent + 1)) u64_max }

-- `diff |= self.id[i] ^ id[i]` for every `i` of the identifier.
unfoldable pub differences : ℕ → List ℕ → List ℕ → ℕ
differences diff [] id = diff
differences diff (x ∷ xs) [] = diff
differences diff (x ∷ xs) (y ∷ ys) = differences (bit_or diff (bit_xor x y)) xs ys

unfoldable pub matches : Txn → List ℕ → Bool
unfolding differences
matches t id = if length id != length t.id then false else differences 0 t.id id == 0

unfoldable pub accept : Txn → Bool × Txn
accept t = if t.done != 0 then (false, t) else (true, record t { done = 1 })

unfoldable pub is_finished : Txn → ℕ → Bool
unfolding poll
is_finished t now_ms = t.done != 0 || elim (poll t now_ms) [ timed_out ↦ true | _ ↦ false ]

unfoldable pub txn_id : ℕ → ℕ → List ℕ
txn_id counter seed =
    be64 ((counter * 0x9e3779b97f4a7c15 + seed) % 2 ^ 64) ++ be32 (counter % 2 ^ 32)

abbrev pub result_len : ℕ
result_len = 9

-- A buffer after a write, and the number of bytes written; the address is its four bytes.
unfoldable pub write_result : ℕ → List ℕ → ℕ → ℕ → List ℕ → Option (ℕ × List ℕ)
write_result status ip port code out =
    if ltb (length out) result_len
    then none
    else some (
      result_len,
      copy_at 7 (le16 code) (copy_at 5 (le16 port) (copy_at 1 ip (copy_at 0 (status ∷ []) out))),
    )

unfoldable pub parse_result : List ℕ → Option (ℕ × List ℕ × ℕ × ℕ)
parse_result buf =
    let at = λ (i : ℕ). get_or buf i 0 in
    if length buf != result_len
    then none
    else some (at 0, at 1 ∷ at 2 ∷ at 3 ∷ at 4 ∷ [], from16 (at 5) (at 6), from16 (at 7) (at 8))
