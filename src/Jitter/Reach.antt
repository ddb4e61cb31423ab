-- ===== src/Jitter/Reach.antt =====
-- Every window that the operations can produce is valid.
use wave.Common.{ℕ, ◌^◌, ◌<◌, List}
use wave.Jitter.{Meta, JitterBuffer, new, insert, release, skip_hole}
use wave.Jitter.Invariant.{IsValid, new-IsValid, insert-IsValid}
use wave.Jitter.Advance.{release-IsValid, skip_hole-IsValid}

-- A new or reset window, and what the operations make of it, in any order.
pub data Reach : JitterBuffer → Type 0 where
  fresh : Reach new
  inserted :
      {b : JitterBuffer} (seq : ℕ) (payload : List ℕ) (info : Meta)
      → seq < 2 ^ 16
      → Reach b
      → Reach (insert seq payload info b).1
  let_go : {b : JitterBuffer} → Reach b → Reach (release b)
  hole_skipped : {b : JitterBuffer} → Reach b → Reach (skip_hole b).1

-- Whatever sequence of insertions of `u16` numbers, releases and skips is applied to a new window, it
-- stays valid.
pub reachable-IsValid : (b : JitterBuffer) → Reach b → IsValid b
reachable-IsValid _ fresh = new-IsValid
reachable-IsValid _ (inserted {b} seq payload info h r) =
    insert-IsValid seq payload info b h (reachable-IsValid b r)
reachable-IsValid _ (let_go {b} r) = release-IsValid b (reachable-IsValid b r)
reachable-IsValid _ (hole_skipped {b} r) = skip_hole-IsValid b (reachable-IsValid b r)
