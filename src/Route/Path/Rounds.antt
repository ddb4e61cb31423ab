-- ===== src/Route/Path/Rounds.antt =====
-- Rounds of `remove_dot_segments`, on a buffer cut at its two cursors.
use wave.Common.{
  same_lem, ℕ, zero, suc, ◌+◌, ◌-◌, ◌≤◌, ◌<◌, ◌≡◌, ◌∙◌, refl, ap, sym, arith, true, false, ◌==◌,
  List, [], ◌∷◌, ◌++◌, All, length, length-append, get_or, get_or-append_right, set, take, drop,
  take-append, drop-append, drop-append_left, drop-drop, length-drop, slice, slice-append, copy_at,
  append_assoc,
}
use mathlib.Core.List.{tail}
use wave.Route.Path.{pop_segment, segment_end, step}
use wave.Route.Path.Segments.{
  IsSegment, is_dot, is_dots, render, render_stack, render-IsBoundary, no_prefix,
}

abbrev pub slash : ℕ
slash = b'/'

segment-ne-slash :
    (s rest : List ℕ) (k : ℕ)
    → IsSegment s
    → k < length s
    → (get_or (s ++ rest) k 0 == slash) ≡ false
segment-ne-slash [] rest k h hk = absurd (omega arith)
segment-ne-slash (b ∷ s) rest zero (hb, hs) hk = hb
segment-ne-slash (b ∷ s) rest (suc k) (hb, hs) hk = segment-ne-slash s rest k hs (omega arith)

-- Back over a segment, to the slash before it.
pop_back :
    (x s rest : List ℕ) (k : ℕ)
    → IsSegment s
    → k ≤ length s
    → pop_segment (x ++ (slash ∷ s ++ rest)) (suc (length x + k)) ≡ length x
unfolding pop_segment
pop_back x s rest zero h hk =
    let at : length x + 0 ≡ length x = omega arith in
    let e : get_or (x ++ (slash ∷ s ++ rest)) (length x + 0) 0 ≡ slash =
      get_or-append_right x (slash ∷ s ++ rest) 0 0 in
    rw e at
pop_back x s rest (suc k) h hk =
    let at : length x + suc k ≡ suc (length x + k) = omega arith in
    let e : (get_or (x ++ (slash ∷ s ++ rest)) (length x + suc k) 0 == slash) ≡ false =
      rw (get_or-append_right x (slash ∷ s ++ rest) (suc k) 0)
        (segment-ne-slash s rest k h (omega arith)) in
    rw e (ap (pop_segment (x ++ (slash ∷ s ++ rest))) at ∙ pop_back x s rest k h (omega arith))

-- What the loop leaves: these bytes first, and their number.
abbrev pub Leaves : List ℕ × ℕ → List ℕ → Type 0
Leaves r out = (rest : List ℕ) × (r ≡ (out ++ rest, length out))

-- The buffer is what is written, a gap, what is left to read, and what lies behind.
module _ (out gap rest behind : List ℕ) where
  abbrev pub buffer : List ℕ
  buffer = (out ++ gap) ++ (rest ++ behind)

  pub unread : slice buffer (length (out ++ gap)) (length (out ++ gap) + length rest) ≡ rest
  unread =
      ap (λ l. slice l (length (out ++ gap)) (length (out ++ gap) + length rest))
        (sym (append_assoc (out ++ gap) rest behind))
      ∙ slice-append (out ++ gap) rest behind (length (out ++ gap))
          (length (out ++ gap) + length rest) refl refl

pub regroup :
    (out gap a rest behind : List ℕ)
    → buffer out gap (a ++ rest) behind ≡ buffer out (gap ++ a) rest behind
regroup out gap a rest behind = simp append_assoc refl

-- A copy of the next bytes to the end of what is written.
pub copied :
    (out gap a rest behind : List ℕ)
    → (gap' : List ℕ) × (length gap' ≡ length gap)
      × (copy_at (length out) a (buffer out gap (a ++ rest) behind)
          ≡ buffer (out ++ a) gap' rest behind)
copied out gap a rest behind =
    let x = gap ++ (a ++ (rest ++ behind)) in
    let whole : buffer out gap (a ++ rest) behind ≡ out ++ x = simp append_assoc refl in
    let size = length-append gap a in
    let front : take (length out) (out ++ x) ≡ out = take-append out x in
    let back : drop (length out + length a) (out ++ x)
        ≡ drop (length a) (gap ++ a) ++ (rest ++ behind) =
      sym (drop-drop (length a) (length out) (out ++ x))
      ∙ ap (drop (length a)) (drop-append out x)
      ∙ ap (drop (length a)) (sym (append_assoc gap a (rest ++ behind)))
      ∙ drop-append_left (length a) (gap ++ a) (rest ++ behind) (omega (arith, size)) in
    (
      drop (length a) (gap ++ a),
      omega (arith, size, length-drop (length a) (gap ++ a)),
      ap (copy_at (length out) a) whole ∙ rw (front, back) (simp append_assoc refl),
    )

-- The last segment of the stack becomes a part of the gap.
pub popped :
    (stack : List (List ℕ)) (gap rest behind : List ℕ)
    → All IsSegment stack
    → (gap' : List ℕ) × (buffer (render_stack stack) gap rest behind
        ≡ buffer (render_stack (tail stack)) gap' rest behind)
      × (length (render_stack (tail stack) ++ gap') ≡ length (render_stack stack ++ gap))
      × (pop_segment (buffer (render_stack stack) gap rest behind) (length (render_stack stack))
          ≡ length (render_stack (tail stack)))
popped [] gap rest behind h = (gap, refl, refl, unfold pop_segment in refl)
popped (s ∷ stack) gap rest behind (hs, h) =
    let below = render_stack stack in
    let size : length (below ++ slash ∷ s) ≡ suc (length below + length s) =
      omega (arith, length-append below (slash ∷ s)) in
    let whole : buffer (below ++ slash ∷ s) gap rest behind
        ≡ below ++ (slash ∷ s ++ (gap ++ (rest ++ behind))) =
      simp append_assoc refl in
    (
      slash ∷ s ++ gap,
      simp append_assoc refl,
      ap length (sym (append_assoc below (slash ∷ s) gap)),
      rw (whole, size) (pop_back below s (gap ++ (rest ++ behind)) (length s) hs (omega arith)),
    )

-- One round at each kind of segment.
module _ (n r w : ℕ) (buf s : List ℕ) (segs : List (List ℕ))
    (read : slice buf r n ≡ render (s ∷ segs)) where
  pub step_dot :
      is_dot s ≡ true
      → (t : List ℕ) (more : List (List ℕ)) → segs ≡ t ∷ more
      → step n buf r w ≡ (buf, r + 2, w)
  unfolding step
  step_dot d t more e = let es = same_lem s _ d in rw (read, es, e) refl

  pub step_last_dot :
      is_dot s ≡ true → segs ≡ [] → step n buf r w ≡ (set buf (r + 1) slash, r + 1, w)
  unfolding step
  step_last_dot d e = let es = same_lem s _ d in rw (read, es, e) refl

  pub step_dots :
      is_dots s ≡ true
      → (t : List ℕ) (more : List (List ℕ)) → segs ≡ t ∷ more
      → step n buf r w ≡ (buf, r + 3, pop_segment buf w)
  unfolding step
  step_dots d t more e = let es = same_lem s _ d in rw (read, es, e) refl

  pub step_last_dots :
      is_dots s ≡ true
      → segs ≡ []
      → step n buf r w ≡ (set buf (r + 2) slash, r + 2, pop_segment buf w)
  unfolding step
  step_last_dots d e = let es = same_lem s _ d in rw (read, es, e) refl

  pub step_segment :
      IsSegment s
      → is_dot s ≡ false
      → is_dots s ≡ false
      → segment_end buf n r ≡ r + suc (length s)
      → slice buf r (r + suc (length s)) ≡ slash ∷ s
      → step n buf r w ≡ (copy_at w (slash ∷ s) buf, r + suc (length s), w + suc (length s))
  unfolding step
  step_segment h d dd e seg =
      let (t1, t2, t3, t4) = no_prefix s (render segs) h (render-IsBoundary segs) d dd in
      let width : r + suc (length s) - r ≡ suc (length s) = omega arith in
      rw (read, t1, t2, t3, t4, e, seg, width) refl
