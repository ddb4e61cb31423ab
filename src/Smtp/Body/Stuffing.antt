-- ===== src/Smtp/Body/Stuffing.antt =====
-- The bytes that the body writers leave in a buffer.
use wave.Common.{
  ℕ, suc, ◌+◌, ◌-◌, ◌≤◌, ◌≡◌, ◌∙◌, refl, arith, Bool, true, false, ◌&&◌, some, if◌then◌else◌, List,
  [], ◌∷◌, ◌++◌, append-nil, append_assoc, ltb, ◌==◌, length, length-append, length-drop, drop,
  get_or, get_or-append_here, copy_at_next, Bool-cases, inl, inr,
}
use wave.Smtp.Body.{lf, dot, Cursor, smtp_put, put_stuffed, ends_crlf}

-- The transparency rule of RFC 5321 on a span that starts with the given line state.
unfoldable pub stuffed : Bool → List ℕ → List ℕ
stuffed line_start [] = []
stuffed line_start (b ∷ body) =
    let rest = stuffed (b == lf) body in if line_start && b == dot then dot ∷ b ∷ rest else b ∷ rest

-- The line state behind a span.
unfoldable pub line_state : Bool → List ℕ → Bool
line_state line_start [] = line_start
line_state line_start (b ∷ body) = line_state (b == lf) body

-- A buffer that begins with `pre`, at the position behind it.
abbrev pub written : List ℕ → List ℕ → Cursor
written dst pre = (pre ++ drop (length pre) dst, length pre)

pub smtp_put-written :
    (dst pre b : List ℕ)
    → length pre + length b ≤ length dst
    → smtp_put (written dst pre) b ≡ some (written dst (pre ++ b))
unfolding smtp_put
smtp_put-written dst pre b h =
    let room : ltb (length (pre ++ drop (length pre) dst)) (length pre + length b) ≡ false =
      ground (arith, length-append pre (drop (length pre) dst), length-drop (length pre) dst) in
    rw (room, copy_at_next pre b dst (length pre) refl, ← length-append pre b) refl

pub stuffed-dot :
    (line_start : Bool) (b : ℕ) (body : List ℕ)
    → (line_start && b == dot) ≡ true
    → stuffed line_start (b ∷ body) ≡ dot ∷ b ∷ stuffed (b == lf) body
unfolding stuffed
stuffed-dot line_start b body e = rw e refl

pub stuffed-plain :
    (line_start : Bool) (b : ℕ) (body : List ℕ)
    → (line_start && b == dot) ≡ false
    → stuffed line_start (b ∷ body) ≡ b ∷ stuffed (b == lf) body
unfolding stuffed
stuffed-plain line_start b body e = rw e refl

pub put_stuffed-written :
    (dst body pre : List ℕ) (line_start : Bool)
    → length pre + length (stuffed line_start body) ≤ length dst
    → put_stuffed body line_start (written dst pre)
      ≡ some (written dst (pre ++ stuffed line_start body), line_state line_start body)
unfolding put_stuffed line_state
put_stuffed-written dst [] pre line_start h = unfold stuffed in rw (append-nil pre) refl
put_stuffed-written dst (b ∷ body) pre line_start h = elim (Bool-cases (line_start && b == dot)) [
  | inl dotted ↦
      let tail = stuffed (b == lf) body in
      let e = stuffed-dot line_start b body dotted in
      let room : length pre + suc (suc (length tail)) ≤ length dst = rw e at h in
      let one = length-append pre (dot ∷ []) in
      let two = length-append (pre ++ (dot ∷ [])) (b ∷ []) in
      rw (dotted, e, smtp_put-written dst pre (dot ∷ []) (omega arith))
        (rw (smtp_put-written dst (pre ++ (dot ∷ [])) (b ∷ []) (omega arith)) (
          put_stuffed-written dst body ((pre ++ (dot ∷ [])) ++ (b ∷ [])) (b == lf) (omega arith)
          ∙ simp append_assoc refl))
  | inr plain ↦
      let tail = stuffed (b == lf) body in
      let e = stuffed-plain line_start b body plain in
      let room : length pre + suc (length tail) ≤ length dst = rw e at h in
      let one = length-append pre (b ∷ []) in
      rw (plain, e, smtp_put-written dst pre (b ∷ []) (omega arith))
        (put_stuffed-written dst body (pre ++ (b ∷ [])) (b == lf) (omega arith)
          ∙ simp append_assoc refl)
]

-- A span may be cut anywhere.
pub stuffed-append :
    (line_start : Bool) (xs ys : List ℕ)
    → stuffed line_start (xs ++ ys) ≡ stuffed line_start xs ++ stuffed (line_state line_start xs) ys
unfolding line_state
stuffed-append line_start [] ys = unfold stuffed in refl
stuffed-append line_start (x ∷ xs) ys = elim (Bool-cases (line_start && x == dot)) [
  | inl dotted ↦
      rw
        (
          stuffed-dot line_start x (xs ++ ys) dotted,
          stuffed-dot line_start x xs dotted,
          stuffed-append (x == lf) xs ys,
        )
        refl
  | inr plain ↦
      rw
        (
          stuffed-plain line_start x (xs ++ ys) plain,
          stuffed-plain line_start x xs plain,
          stuffed-append (x == lf) xs ys,
        )
        refl
]

pub line_state-append :
    (line_start : Bool) (xs ys : List ℕ)
    → line_state line_start (xs ++ ys) ≡ line_state (line_state line_start xs) ys
unfolding line_state
line_state-append line_start [] ys = refl
line_state-append line_start (x ∷ xs) ys = line_state-append (x == lf) xs ys

-- The bytes of a span that is not empty end in a byte that tells the line state.
Last : Bool → List ℕ → Type 0
Last line_start body =
    (init : List ℕ) × (c : ℕ) × (stuffed line_start body ≡ init ++ (c ∷ []))
    × (line_state line_start body ≡ (c == lf))

stuffed-Last : (b : ℕ) (body : List ℕ) (line_start : Bool) → Last line_start (b ∷ body)
unfolding Last line_state
stuffed-Last b [] line_start = elim (Bool-cases (line_start && b == dot)) [
  | inl is_dot ↦ (dot ∷ [], b, stuffed-dot line_start b [] is_dot ∙ unfold stuffed in refl, refl)
  | inr plain ↦ ([], b, stuffed-plain line_start b [] plain ∙ unfold stuffed in refl, refl)
]
stuffed-Last b (c ∷ body) line_start =
    let (init, last, e, state) = stuffed-Last c body (b == lf) in
    elim (Bool-cases (line_start && b == dot)) [
      | inl is_dot ↦
          (dot ∷ b ∷ init, last, stuffed-dot line_start b (c ∷ body) is_dot ∙ rw e refl, state)
      | inr plain ↦ (b ∷ init, last, stuffed-plain line_start b (c ∷ body) plain ∙ rw e refl, state)
    ]

-- A body whose bytes end in CRLF leaves the line state set.
pub ends_crlf-line_state :
    (dst body : List ℕ)
    → ends_crlf (written dst (stuffed true body)) ≡ true
    → line_state true body ≡ true
unfolding ends_crlf Last
ends_crlf-line_state dst [] e = unfold line_state in refl
ends_crlf-line_state dst (b ∷ body) e =
    let (init, c, bytes, state) = stuffed-Last b body true in
    let size = length-append init (c ∷ []) in
    let at : length (init ++ (c ∷ [])) - 1 ≡ length init = omega arith in
    let here : get_or ((init ++ (c ∷ [])) ++ drop (length (init ++ (c ∷ []))) dst)
          (length (init ++ (c ∷ [])) - 1) 0
        ≡ c =
      rw (append_assoc init (c ∷ []) (drop (length (init ++ (c ∷ []))) dst)) (
        get_or-append_here init (drop (length (init ++ (c ∷ []))) dst) c 0
          (length (init ++ (c ∷ [])) - 1) at) in
    let e' = rw bytes at e in state ∙ ground (arith, here, e')
