-- ===== src/Smtp/Body/Receiver.antt =====
-- The receiver of RFC 5321, which takes the dots off and looks for the end of the data; it ends a line at
-- LF, with or without CR before it, as the writers do.
use wave.Common.{
  ℕ, ◌+◌, ◌≤◌, ◌≡◌, ◌∙◌, refl, ap, arith, Bool, true, false, ◌&&◌, Option, none, some,
  if◌then◌else◌, List, [], ◌∷◌, ◌++◌, append-nil, append_assoc, ◌==◌, length, length-append, drop,
  Bool-cases, inl, inr,
}
use wave.Smtp.Body.{cr, lf, dot, ends_crlf, smtp_body_end, smtp_body}
use wave.Smtp.Body.Stuffing.{
  stuffed, line_state, ends_crlf-line_state, written, stuffed-dot, stuffed-plain,
  put_stuffed-written, smtp_put-written,
}

-- Where in a line the receiver stands.
pub data Place : Type 0 where
  start : Place
  middle : Place
  dotted : Place
  dotted_cr : Place

abbrev pub after : ℕ → Place
after c = if c == lf then start else middle

-- A byte of the message.
abbrev pub keep : ℕ → Option (List ℕ × List ℕ) → Option (List ℕ × List ℕ)
keep c none = none
keep c (some (body, rest)) = some (c ∷ body, rest)

-- The message and what follows its end; `none` while the end has not come.
unfoldable pub receive : Place → List ℕ → Option (List ℕ × List ℕ)
receive place [] = none
receive start (c ∷ s) =
    let dotted_rest = receive dotted s in
    let plain_rest = receive (after c) s in if c == dot then dotted_rest else keep c plain_rest
receive middle (c ∷ s) = keep c (receive (after c) s)
receive dotted (c ∷ s) =
    let cr_rest = receive dotted_cr s in
    let plain_rest = receive (after c) s in if c == cr then cr_rest else keep c plain_rest
receive dotted_cr (c ∷ s) =
    let plain_rest = receive (after c) s in
    if c == lf then some ([], s) else keep cr (keep c plain_rest)

abbrev pub keeps : List ℕ → Option (List ℕ × List ℕ) → Option (List ℕ × List ℕ)
keeps [] r = r
keeps (c ∷ body) r = keep c (keeps body r)

abbrev place_of : Bool → Place
place_of line_start = if line_start then start else middle

receive-dot :
    (line_start : Bool) (b : ℕ) (s : List ℕ)
    → (line_start && b == dot) ≡ true
    → receive (place_of line_start) (dot ∷ b ∷ s) ≡ keep b (receive (after b) s)
unfolding receive
receive-dot true b s e = let same : b ≡ dot = ground arith in rw same refl
receive-dot false b s e = cc

receive-plain :
    (line_start : Bool) (b : ℕ) (s : List ℕ)
    → (line_start && b == dot) ≡ false
    → receive (place_of line_start) (b ∷ s) ≡ keep b (receive (after b) s)
unfolding receive
receive-plain true b s e = let other : (b == dot) ≡ false = e in rw other refl
receive-plain false b s e = refl

-- The receiver takes exactly the body off the stuffed bytes.
receive-stuffed :
    (body tail : List ℕ) (line_start : Bool)
    → receive (place_of line_start) (stuffed line_start body ++ tail)
      ≡ keeps body (receive (place_of (line_state line_start body)) tail)
unfolding line_state
receive-stuffed [] tail line_start = unfold stuffed in refl
receive-stuffed (b ∷ body) tail line_start = elim (Bool-cases (line_start && b == dot)) [
  | inl is_dot ↦ rw (stuffed-dot line_start b body is_dot) (
      receive-dot line_start b (stuffed (b == lf) body ++ tail) is_dot
      ∙ ap (keep b) (receive-stuffed body tail (b == lf)))
  | inr plain ↦ rw (stuffed-plain line_start b body plain) (
      receive-plain line_start b (stuffed (b == lf) body ++ tail) plain
      ∙ ap (keep b) (receive-stuffed body tail (b == lf)))
]

-- What the writer puts behind the stuffed bytes.
abbrev ending : Bool → List ℕ
ending ends_with_crlf = if ends_with_crlf then dot ∷ cr ∷ lf ∷ [] else cr ∷ lf ∷ dot ∷ cr ∷ lf ∷ []

smtp_body_end-written :
    (dst pre : List ℕ) (ends_with_crlf : Bool)
    → length pre + 5 ≤ length dst
    → smtp_body_end ends_with_crlf (written dst pre)
      ≡ some (written dst (pre ++ ending ends_with_crlf))
unfolding smtp_body_end
smtp_body_end-written dst pre true h = smtp_put-written dst pre (dot ∷ cr ∷ lf ∷ []) (omega arith)
smtp_body_end-written dst pre false h = rw (smtp_put-written dst pre (cr ∷ lf ∷ []) (omega arith)) (
    smtp_put-written dst (pre ++ (cr ∷ lf ∷ [])) (dot ∷ cr ∷ lf ∷ [])
      (omega (arith, length-append pre (cr ∷ lf ∷ [])))
    ∙ simp append_assoc refl)

-- The line break that a body is completed with.
abbrev pub completed : Bool → List ℕ → List ℕ
completed ends_with_crlf body = if ends_with_crlf then body else body ++ (cr ∷ lf ∷ [])

keeps-some : (body xs rest : List ℕ) → keeps body (some (xs, rest)) ≡ some (body ++ xs, rest)
keeps-some [] xs rest = refl
keeps-some (c ∷ body) xs rest = ap (keep c) (keeps-some body xs rest)

receive-ending :
    (body rest : List ℕ) (ends_with_crlf : Bool)
    → (ends_with_crlf ≡ true → line_state true body ≡ true)
    → receive start ((stuffed true body ++ ending ends_with_crlf) ++ rest)
      ≡ some (completed ends_with_crlf body, rest)
receive-ending body rest true h = rw (append_assoc (stuffed true body) (dot ∷ cr ∷ lf ∷ []) rest) (
    receive-stuffed body (dot ∷ cr ∷ lf ∷ rest) true
    ∙ rw (h refl) (unfold receive in keeps-some body [] rest ∙ rw (append-nil body) refl))
receive-ending body rest false h =
    rw (append_assoc (stuffed true body) (cr ∷ lf ∷ dot ∷ cr ∷ lf ∷ []) rest) (
      receive-stuffed body (cr ∷ lf ∷ dot ∷ cr ∷ lf ∷ rest) true
      ∙ elim (Bool-cases (line_state true body)) [
        | inl at_start ↦ rw at_start (unfold receive in keeps-some body (cr ∷ lf ∷ []) rest)
        | inr inside ↦ rw inside (unfold receive in keeps-some body (cr ∷ lf ∷ []) rest)
      ])

-- A message is written whole to every buffer with room for its stuffed bytes and five more. From the bytes
-- written, whatever follows them, a receiver that ends lines at LF takes the message, completed with CRLF
-- unless its stuffed bytes end in one, and stops exactly at their end: no line of the message ends it
-- early.
pub receive-smtp_body :
    (body dst rest : List ℕ)
    → length (stuffed true body) + 5 ≤ length dst
    → (bytes : List ℕ) × (smtp_body body dst
        ≡ some (bytes ++ drop (length bytes) dst, length bytes))
      × (receive start (bytes ++ rest)
          ≡ some (completed (ends_crlf (written dst (stuffed true body))) body, rest))
unfolding smtp_body
receive-smtp_body body dst rest room =
    let ends = ends_crlf (written dst (stuffed true body)) in
    (
      stuffed true body ++ ending ends,
      rw (put_stuffed-written dst body [] true (omega arith))
          (smtp_body_end-written dst (stuffed true body) ends room),
      receive-ending body rest ends (ends_crlf-line_state dst body),
    )
