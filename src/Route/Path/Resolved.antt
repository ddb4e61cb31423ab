-- ===== src/Route/Path/Resolved.antt =====
-- The stack that the segments of a path resolve to.
use wave.Common.{
  ℕ, suc, ◌+◌, ◌≤◌, ◌<◌, ◌≡◌, ◌∙◌, refl, ap, sym, arith, false, if◌then◌else◌, List, [], ◌∷◌, ◌++◌,
  All, length, length-append, Bool-cases, inl, inr, append_assoc, append-nil,
}
use mathlib.Core.List.{tail, reverse, reverse-cons}
use wave.Route.{ok, >>=-eq-ok}
use wave.Route.Path.{unescape}
use wave.Route.Path.Segments.{IsSegment, is_dot, is_dots, render, render_stack, closing, resolve}
use wave.Route.Path.Escapes.{unescape_all}
use wave.Route.Path.Stable.{unescape_fixed}

-- A segment that is its own normal form.
abbrev pub IsNormal : List ℕ → Type 0
IsNormal s = IsSegment s × (unescape s ≡ ok s)

-- A normal segment that is neither "." nor "..".
abbrev pub IsClean : List ℕ → Type 0
IsClean s = IsNormal s × (is_dot s ≡ false) × (is_dots s ≡ false)

pub empty-IsClean : IsClean []
unfolding unescape
empty-IsClean = ((tt, refl), refl, refl)

tail-All : (stack : List (List ℕ)) → All IsClean stack → All IsClean (tail stack)
tail-All [] h = tt
tail-All (s ∷ stack) (hs, h) = h

closing-All : (segs stack : List (List ℕ)) → All IsClean stack → All IsClean (closing segs stack)
closing-All [] stack h = (empty-IsClean, h)
closing-All (s ∷ segs) stack h = h

pub resolve-IsClean :
    (segs stack : List (List ℕ))
    → All IsNormal segs
    → All IsClean stack
    → All IsClean (resolve stack segs)
unfolding resolve
resolve-IsClean [] stack hs h = h
resolve-IsClean (s ∷ segs) stack (hn, hs) h = elim (Bool-cases (is_dot s)) [
  | inl d ↦ rw d (resolve-IsClean segs (closing segs stack) hs (closing-All segs stack h))
  | inr d ↦ elim (Bool-cases (is_dots s)) [
    | inl dd ↦
        rw (d, dd)
          (resolve-IsClean segs (closing segs (tail stack)) hs
            (closing-All segs (tail stack) (tail-All stack h)))
    | inr dd ↦ rw (d, dd) (resolve-IsClean segs (s ∷ stack) hs ((hn, d, dd), h))
  ]
]

length-tail :
    (stack : List (List ℕ)) → length (render_stack (tail stack)) ≤ length (render_stack stack)
length-tail [] = omega arith
length-tail (s ∷ stack) = omega (arith, length-append (render_stack stack) (b'/' ∷ s))

length-closing :
    (segs stack : List (List ℕ))
    → length (render_stack (closing segs stack)) ≤ suc (length (render_stack stack))
length-closing [] stack = omega (arith, length-append (render_stack stack) (b'/' ∷ []))
length-closing (s ∷ segs) stack = omega arith

-- The path grows no longer.
pub length-resolve :
    (segs stack : List (List ℕ))
    → length (render_stack (resolve stack segs))
      ≤ length (render_stack stack) + length (render segs)
unfolding resolve
length-resolve [] stack = omega arith
length-resolve (s ∷ segs) stack =
    let size = length-append s (render segs) in
    elim (Bool-cases (is_dot s)) [
      | inl d ↦
          rw d (
            omega
              (arith, size, length-closing segs stack, length-resolve segs (closing segs stack)))
      | inr d ↦ elim (Bool-cases (is_dots s)) [
        | inl dd ↦
            rw (d, dd)
              (omega (
                arith,
                size,
                length-tail stack,
                length-closing segs (tail stack),
                length-resolve segs (closing segs (tail stack)),
              ))
        | inr dd ↦
            rw (d, dd)
              (omega (
                arith,
                size,
                length-append (render_stack stack) (b'/' ∷ s),
                length-resolve segs (s ∷ stack),
              ))
      ]
    ]

-- A path with a segment has one left.
pub resolve-nonempty :
    (s : List ℕ) (segs stack : List (List ℕ)) → 0 < length (render_stack (resolve stack (s ∷ segs)))
unfolding resolve
resolve-nonempty s [] stack = elim (Bool-cases (is_dot s)) [
  | inl d ↦ rw d (omega (arith, length-append (render_stack stack) (b'/' ∷ [])))
  | inr d ↦ elim (Bool-cases (is_dots s)) [
    | inl dd ↦ rw (d, dd) (omega (arith, length-append (render_stack (tail stack)) (b'/' ∷ [])))
    | inr dd ↦ rw (d, dd) (omega (arith, length-append (render_stack stack) (b'/' ∷ s)))
  ]
]
resolve-nonempty s (t ∷ segs) stack =
    resolve-nonempty t segs
      (if is_dot s then stack else if is_dots s then tail stack else s ∷ stack)

-- Clean segments stand on the stack in turn.
pub resolve-clean :
    (segs stack : List (List ℕ)) → All IsClean segs → resolve stack segs ≡ reverse segs ++ stack
unfolding resolve
resolve-clean [] stack h = refl
resolve-clean (s ∷ segs) stack ((hn, d, dd), h) =
    rw (d, dd)
      (resolve-clean segs (s ∷ stack) h
        ∙ sym (append_assoc (reverse segs) (s ∷ []) stack)
        ∙ ap (λ l. l ++ stack) (sym (reverse-cons s segs)))

render-append : (a b : List (List ℕ)) → render (a ++ b) ≡ render a ++ render b
render-append [] b = refl
render-append (s ∷ a) b =
    ap (λ l. b'/' ∷ (s ++ l)) (render-append a b)
    ∙ ap (λ l. b'/' ∷ l) (sym (append_assoc s (render a) (render b)))

pub render-reverse : (stack : List (List ℕ)) → render (reverse stack) ≡ render_stack stack
render-reverse [] = refl
render-reverse (s ∷ stack) =
    ap render (reverse-cons s stack)
    ∙ render-append (reverse stack) (s ∷ [])
    ∙ rw (render-reverse stack, append-nil s) refl

All-snoc : (a : List (List ℕ)) (s : List ℕ) → All IsClean a → IsClean s → All IsClean (a ++ s ∷ [])
All-snoc [] s h hs = (hs, tt)
All-snoc (t ∷ a) s (ht, h) hs = (ht, All-snoc a s h hs)

pub reverse-All : (stack : List (List ℕ)) → All IsClean stack → All IsClean (reverse stack)
reverse-All [] h = tt
reverse-All (s ∷ stack) (hs, h) =
    rw (reverse-cons s stack) (All-snoc (reverse stack) s (reverse-All stack h) hs)

pub unescape_all-clean : (segs : List (List ℕ)) → All IsClean segs → unescape_all segs ≡ ok segs
unfolding unescape_all
unescape_all-clean [] h = refl
unescape_all-clean (s ∷ segs) (((hs, e), d, dd), h) = rw (e, unescape_all-clean segs h) refl

pub unescape_all-IsNormal :
    (segs ts : List (List ℕ))
    → All IsSegment segs
    → unescape_all segs ≡ ok ts
    → All IsNormal ts × (length (render ts) ≤ length (render segs)) × (length ts ≡ length segs)
unfolding unescape_all
unescape_all-IsNormal [] ts hs e = let nothing : ts ≡ [] = cc in rw nothing (tt, omega arith, refl)
unescape_all-IsNormal (s ∷ segs) ts (h, hs) e =
    let (t, et, rest) = >>=-eq-ok (unescape s) _ e in
    let (us, eu, last) = >>=-eq-ok (unescape_all segs) _ rest in
    let (seg, size, fixed) = unescape_fixed s t h et in
    let (normal, sizes, count) = unescape_all-IsNormal segs us hs eu in
    let whole : ts ≡ t ∷ us = cc in
    rw whole (
      ((seg, fixed), normal),
      omega (arith, length-append t (render us), length-append s (render segs)),
      omega arith,
    )
