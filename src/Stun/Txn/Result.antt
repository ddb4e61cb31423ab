-- ===== src/Stun/Txn/Result.antt =====
-- The result record is read back as it was written.
use wave.Common.{ℕ, ◌≤◌, ◌≡◌, refl, arith, some, List, [], ◌∷◌, ◌++◌, length, take, drop, drop-drop}
use wave.Common.Bytes.{IsU16, le16, from16-bytes}
use wave.Stun.Txn.{write_result, parse_result}

-- A result with `u16` port and code that fits the buffer is written in nine bytes, parses back from
-- exactly these, and what is behind them is kept.
pub parse-write_result :
    (status a b c d port code : ℕ) (out : List ℕ)
    → IsU16 port
    → IsU16 code
    → 9 ≤ length out
    → (written : List ℕ) × (write_result status (a ∷ b ∷ c ∷ d ∷ []) port code out
        ≡ some (9, written))
      × (parse_result (take 9 written) ≡ some (status, a ∷ b ∷ c ∷ d ∷ [], port, code))
      × (drop 9 written ≡ drop 9 out)
unfolding write_result parse_result
parse-write_result status a b c d port code out hp hc room = (
  (status ∷ a ∷ b ∷ c ∷ d ∷ le16 port ++ le16 code) ++ drop 9 out,
  ground (arith, drop-drop 1 4 out, drop-drop 5 2 out, drop-drop 7 2 out),
  ground (arith, from16-bytes port hp, from16-bytes code hc),
  refl,
)
