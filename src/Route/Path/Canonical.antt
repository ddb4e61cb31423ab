-- ===== src/Route/Path/Canonical.antt =====
-- `norm_path` on absolute paths: what it answers, and that the answer is canonical.
use wave.Common.{
  ℕ, suc, ◌+◌, ◌≤◌, ◌<◌, ◌≡◌, ◌∙◌, refl, ap, sym, arith, true, false, if◌then◌else◌, ltb, ◌==◌,
  List, [], ◌∷◌, All, length, set, take, take-append, drop, copy_at, Bool-cases, inl, inr,
  append-nil,
}
use mathlib.Core.List.{reverse, reverse-reverse}
use wave.Route.{Result, ok, err, ◌>>=◌, >>=-eq-ok, Result-cases, oversize}
use wave.Route.Path.Resolved.{
  IsNormal, IsClean, resolve-IsClean, length-resolve, resolve-nonempty, resolve-clean,
  render-reverse, reverse-All, unescape_all-clean, unescape_all-IsNormal,
}
use wave.Route.Path.{max_path, unescape, remove_dot_segments, norm_path}
use wave.Route.Path.Segments.{IsSegment, render, render_stack, resolve}
use wave.Route.Path.Rounds.{Leaves}
use wave.Route.Path.Sweep.{sweep}
use wave.Route.Path.Escapes.{unescape_all, unescape-render}

-- The path that `norm_path` leaves in its buffer.
unfoldable pub normalised : List ℕ → List ℕ → Result (List ℕ)
normalised src dst = norm_path src dst >>= λ (n, buf). ok (take n buf)

removed :
    (segs : List (List ℕ)) (dst : List ℕ)
    → All IsSegment segs
    → Leaves
        (remove_dot_segments (copy_at 0 (render segs) dst) (length (render segs)))
        (render_stack (resolve [] segs))
unfolding remove_dot_segments
removed segs dst h =
    sweep (suc (length (render segs))) [] segs [] (drop (0 + length (render segs)) dst) _ _ 0 0
      (omega arith) tt h (refl, refl, omega arith, refl)

segmented :
    (rest : List ℕ)
    → (s : List ℕ) × (segs : List (List ℕ)) × (b'/' ∷ rest ≡ render (s ∷ segs))
      × All IsSegment (s ∷ segs)
segmented [] = ([], [], refl, (tt, tt))
segmented (b ∷ rest) =
    let (s, segs, e, (h, hs)) = segmented rest in
    elim (Bool-cases (b == b'/')) [
      | inl slash ↦
          let same : b ≡ b'/' = ground arith in
          ([], s ∷ segs, rw same (ap (λ l. b'/' ∷ l) e), (tt, (h, hs)))
      | inr other ↦ (b ∷ s, segs, ap (λ l. b'/' ∷ b ∷ l) (cc), ((other, h), hs))
    ]

-- The part of `norm_path` behind the percent-encoding.
finish : List ℕ → List ℕ → Result (List ℕ)
finish out dst =
    (let (buf, n) = remove_dot_segments (copy_at 0 out dst) (length out) in
      if n == 0 then ok (1, set buf 0 b'/') else ok (n, buf))
    >>= λ (n, buf). ok (take n buf)

normalised-finish :
    (src dst : List ℕ)
    → 0 < length src
    → length src ≤ max_path
    → normalised src dst ≡ (unescape src >>= λ out. finish out dst)
unfolding normalised norm_path finish
normalised-finish src dst pos room =
    let fits : ltb max_path (length src) ≡ false = ground arith in
    let some_bytes : (length src == 0) ≡ false = ground arith in
    elim (Result-cases (unescape src)) [
      | inl (out, e) ↦ rw (fits, some_bytes, e) refl
      | inr (x, e) ↦ rw (fits, some_bytes, e) refl
    ]

finish-resolve :
    (t : List ℕ) (ts : List (List ℕ)) (dst : List ℕ)
    → All IsSegment (t ∷ ts)
    → finish (render (t ∷ ts)) dst ≡ ok (render_stack (resolve [] (t ∷ ts)))
unfolding finish
finish-resolve t ts dst h =
    let out = render_stack (resolve [] (t ∷ ts)) in
    let (rest, e) = removed (t ∷ ts) dst h in
    let left : (length out == 0) ≡ false = ground (arith, resolve-nonempty t ts []) in
    rw (e, left) (ap ok (take-append out rest))

normal-segments : (ts : List (List ℕ)) → All IsNormal ts → All IsSegment ts
normal-segments [] h = tt
normal-segments (t ∷ ts) ((ht, e), h) = (ht, normal-segments ts h)

-- An absolute path of at most 2048 bytes is normalised segment by segment: the percent-encoding of each, or
-- the first error, and then the segments that a stack leaves when it is moved by "." and "..".
pub norm_path_lem :
    (s : List ℕ) (segs : List (List ℕ)) (dst : List ℕ)
    → All IsSegment (s ∷ segs)
    → length (render (s ∷ segs)) ≤ max_path
    → normalised (render (s ∷ segs)) dst
      ≡ (unescape_all (s ∷ segs) >>= λ ts. ok (render_stack (resolve [] ts)))
norm_path_lem s segs dst h room =
    normalised-finish (render (s ∷ segs)) dst (omega arith) room
    ∙ ap (λ r. r >>= λ out. finish out dst) (unescape-render (s ∷ segs))
    ∙ elim (Result-cases (unescape_all (s ∷ segs))) [
      | inr (x, e) ↦ rw e refl
      | inl (ts, e) ↦
          let (normal, size, count) = unescape_all-IsNormal (s ∷ segs) ts h e in
          rw e (finish-nonempty ts dst (omega arith) (normal-segments ts normal))
    ]
  where
    finish-nonempty :
        (ts : List (List ℕ)) (dst : List ℕ)
        → 0 < length ts
        → All IsSegment ts
        → finish (render ts) dst ≡ ok (render_stack (resolve [] ts))
    finish-nonempty [] dst pos h = absurd (omega arith)
    finish-nonempty (t ∷ ts) dst pos h = finish-resolve t ts dst h

clean-segments : (ts : List (List ℕ)) → All IsClean ts → All IsSegment ts
clean-segments [] h = tt
clean-segments (t ∷ ts) (((ht, e), d, dd), h) = (ht, clean-segments ts h)

-- A path of clean segments stays as it is.
again :
    (segs : List (List ℕ)) (dst : List ℕ)
    → All IsClean segs
    → 0 < length (render segs)
    → length (render segs) ≤ max_path
    → normalised (render segs) dst ≡ ok (render segs)
again [] dst h pos room = absurd (omega arith)
again (t ∷ ts) dst h pos room =
    let segs = t ∷ ts in
    norm_path_lem t ts dst (clean-segments segs h) room
    ∙ rw (unescape_all-clean segs h, resolve-clean segs [] h, append-nil (reverse segs))
        (ap ok (sym (render-reverse (reverse segs)) ∙ ap render (reverse-reverse segs)))

oversize_lem : (src dst : List ℕ) → max_path < length src → normalised src dst ≡ err oversize
unfolding normalised norm_path
oversize_lem src dst h = let long : ltb max_path (length src) ≡ true = ground arith in rw long refl

abbrev Canonical : ℕ → List ℕ → List ℕ → Type 0
Canonical n p dst =
    (segs : List (List ℕ)) × (p ≡ render segs)
    × All IsClean segs
    × (length p ≤ n)
    × (normalised p dst ≡ ok p)

resolved-Canonical :
    (ts : List (List ℕ)) (n : ℕ) (p dst : List ℕ)
    → All IsNormal ts
    → 0 < length ts
    → length (render ts) ≤ n
    → n ≤ max_path
    → render_stack (resolve [] ts) ≡ p
    → Canonical n p dst
resolved-Canonical [] n p dst normal pos size room e = absurd (omega arith)
resolved-Canonical (t ∷ ts) n p dst normal pos size room e =
    let stack = resolve [] (t ∷ ts) in
    let segs = reverse stack in
    let clean = reverse-All stack (resolve-IsClean (t ∷ ts) [] normal tt) in
    let short : length (render_stack stack) ≤ n = omega (arith, length-resolve (t ∷ ts) []) in
    let same : render segs ≡ render_stack stack = render-reverse stack in
    let left = resolve-nonempty t ts [] in
    rw (← e) (
      segs,
      sym same,
      clean,
      short,
      rw (← same) (again segs dst clean (rw same left) (omega (arith, ap length same))),
    )

-- What an absolute path is normalised to is a path of clean segments, no longer than the path, and the same
-- when it is normalised again, in any buffer: no segment is "." or "..", and none changes under the
-- normalisation of its percent-encoding.
pub norm_path_canonical :
    (rest dst dst' p : List ℕ)
    → normalised (b'/' ∷ rest) dst ≡ ok p
    → (segs : List (List ℕ)) × (p ≡ render segs)
      × All IsClean segs
      × (length p ≤ suc (length rest))
      × (normalised p dst' ≡ ok p)
norm_path_canonical rest dst dst' p e = elim (Bool-cases (ltb max_path (suc (length rest)))) [
  | inl long ↦ let bad = sym (oversize_lem (b'/' ∷ rest) dst (ground arith)) ∙ e in cc
  | inr fits ↦
      let (s, segs, es, h) = segmented rest in
      let size : suc (length rest) ≡ length (render (s ∷ segs)) = ap length es in
      let room : length (render (s ∷ segs)) ≤ max_path = ground arith in
      let (ts, et, ep) =
        >>=-eq-ok (unescape_all (s ∷ segs)) _
          (sym (norm_path_lem s segs dst h room) ∙ ap (λ l. normalised l dst) (sym es) ∙ e) in
      let (normal, sizes, count) = unescape_all-IsNormal (s ∷ segs) ts h et in
      resolved-Canonical ts (suc (length rest)) p dst' normal (omega arith) (omega arith)
        (omega arith) (cc)
]
