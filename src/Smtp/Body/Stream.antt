-- ===== src/Smtp/Body/Stream.antt =====
-- A message that is handed over in spans.
use wave.Common.{
  ℕ, ◌*◌, ◌≤◌, ◌≡◌, refl, arith, Bool, ◌&&◌, Option, some, ◌>>=◌, Bool-cases, inl, inr, List, [],
  ◌∷◌, ◌++◌, ◌==◌, length, take, drop, take-append, All,
}
use wave.Smtp.Body.{dot, lf, smtp_body_chunk}
use wave.Smtp.Body.Stuffing.{
  stuffed, line_state, put_stuffed-written, stuffed-append, line_state-append, stuffed-dot,
  stuffed-plain,
}

abbrev pub concat : List (List ℕ) → List ℕ
concat [] = []
concat (c ∷ cs) = c ++ concat cs

-- The spans go through one buffer, one after the other, with the line state carried along.
unfoldable pub stream : List ℕ → List (List ℕ) → Bool → Option (List ℕ × Bool)
stream dst [] line_start = some ([], line_start)
stream dst (chunk ∷ chunks) line_start = do
  ((out, p), carried) ← smtp_body_chunk chunk line_start dst
  (bytes, last) ← stream dst chunks carried
  some (take p out ++ bytes, last)

length-stuffed :
    (line_start : Bool) (body : List ℕ) → length (stuffed line_start body) ≤ 2 * length body
length-stuffed line_start [] = unfold stuffed in omega arith
length-stuffed line_start (b ∷ body) = elim (Bool-cases (line_start && b == dot)) [
  | inl dotted ↦
      rw (stuffed-dot line_start b body dotted) (omega (arith, length-stuffed (b == lf) body))
  | inr plain ↦
      rw (stuffed-plain line_start b body plain) (omega (arith, length-stuffed (b == lf) body))
]

-- However a message is cut into spans that are at most half as long as the buffer, the bytes written are
-- the stuffed bytes of the whole message, and the line state carried out is that behind it.
pub stream-stuffed :
    (dst : List ℕ) (chunks : List (List ℕ)) (line_start : Bool)
    → All (λ chunk. 2 * length chunk ≤ length dst) chunks
    → stream dst chunks line_start
      ≡ some (stuffed line_start (concat chunks), line_state line_start (concat chunks))
unfolding stream smtp_body_chunk
stream-stuffed dst [] line_start fit = unfold stuffed line_state in refl
stream-stuffed dst (chunk ∷ chunks) line_start (h, fit) =
    rw
      (put_stuffed-written dst chunk [] line_start (omega (arith, length-stuffed line_start chunk)))
      (rw
        (
          stream-stuffed dst chunks (line_state line_start chunk) fit,
          take-append (stuffed line_start chunk) (drop (length (stuffed line_start chunk)) dst),
          stuffed-append line_start chunk (concat chunks),
          line_state-append line_start chunk (concat chunks),
        )
        refl)
