-- ===== src/Smtp/Body.antt =====
-- Message bodies: `smtp_put`, `smtp_body`, `smtp_body_chunk` and `smtp_body_end` of
-- modules/common/smtp_core.rs. A writer takes the buffer with the position, and returns both.
pub mod Stuffing
pub mod Receiver
pub mod Stream
use wave.Common.{
  ℕ, ◌+◌, ◌-◌, Bool, true, false, not, ◌&&◌, ◌||◌, Option, none, some, ◌>>=◌, if◌then◌else◌, List,
  [], ◌∷◌, ltb, ◌==◌, ◌!=◌, length, get_or, copy_at,
}

abbrev pub cr : ℕ
cr = 13

abbrev pub lf : ℕ
lf = 10

abbrev pub dot : ℕ
dot = 46

-- `out` and `p`
abbrev pub Cursor : Type 0
Cursor = List ℕ × ℕ

unfoldable pub smtp_put : Cursor → List ℕ → Option Cursor
smtp_put (out, p) b =
    if ltb (length out) (p + length b) then none else some (copy_at p b out, p + length b)

-- The loop of `smtp_body` and `smtp_body_chunk`, with the line state behind the last byte.
unfoldable pub put_stuffed : List ℕ → Bool → Cursor → Option (Cursor × Bool)
put_stuffed [] line_start at = some (at, line_start)
put_stuffed (b ∷ body) line_start at = do
  dotted ← if line_start && b == dot then smtp_put at (dot ∷ []) else some at
  next ← smtp_put dotted (b ∷ [])
  put_stuffed body (b == lf) next

-- The test in front of the terminator, negated: the bytes written so far end in CRLF.
unfoldable pub ends_crlf : Cursor → Bool
ends_crlf (out, p) = not (ltb p 2 || (get_or out (p - 2) 0 != cr || get_or out (p - 1) 0 != lf))

unfoldable pub smtp_body_end : Bool → Cursor → Option Cursor
smtp_body_end ends_with_crlf at = do
  ended ← if ends_with_crlf then some at else smtp_put at (cr ∷ lf ∷ [])
  smtp_put ended (dot ∷ cr ∷ lf ∷ [])

-- `smtp_body`, from position 0 of `out`; its last two writes are those of `smtp_body_end`.
unfoldable pub smtp_body : List ℕ → List ℕ → Option Cursor
smtp_body body out = do
  (at, line_start) ← put_stuffed body true (out, 0)
  smtp_body_end (ends_crlf at) at

unfoldable pub smtp_body_chunk : List ℕ → Bool → List ℕ → Option (Cursor × Bool)
smtp_body_chunk chunk at_line_start out = put_stuffed chunk at_line_start (out, 0)
