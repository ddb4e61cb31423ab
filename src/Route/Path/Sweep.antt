-- ===== src/Route/Path/Sweep.antt =====
-- The two cursors of `remove_dot_segments` follow the stack of segments.
use wave.Common.{
  same_lem, ℕ, zero, suc, ◌+◌, ◌<◌, ◌≡◌, ◌∙◌, refl, ap, sym, arith, true, false, ltb, List, [], ◌∷◌,
  ◌++◌, All, length, length-append, get_or, get_or-append_right, set, set-append_right, slice,
  slice-append, copy_at, Bool-cases, inl, inr, append_assoc,
}
use mathlib.Core.List.{tail}
use mathlib.Core.Path.{subst}
use wave.Route.Path.{pop_segment, segment_end, step, remove_from}
use wave.Route.Path.Segments.{
  IsSegment, is_dot, is_dots, render, render_stack, resolve, render-IsBoundary, until_slash-segment,
}
use wave.Route.Path.Rounds

remove_from-step :
    (fuel n r w : ℕ) (buf : List ℕ) (b : List ℕ) (r' w' : ℕ)
    → r < n
    → step n buf r w ≡ (b, r', w')
    → remove_from (suc fuel) n buf r w ≡ remove_from fuel n b r' w'
unfolding remove_from
remove_from-step fuel n r w buf b r' w' h e =
    let more : ltb r n ≡ true = ground arith in rw (more, e) refl

-- The segment that the source's inner loop finds.
found :
    (out gap s : List ℕ) (segs : List (List ℕ)) (behind : List ℕ)
    → IsSegment s
    → (segment_end
          (Rounds.buffer out gap (render (s ∷ segs)) behind)
          (length (out ++ gap) + length (render (s ∷ segs)))
          (length (out ++ gap))
        ≡ length (out ++ gap) + suc (length s))
      × (slice
            (Rounds.buffer out gap (render (s ∷ segs)) behind)
            (length (out ++ gap))
            (length (out ++ gap) + suc (length s))
          ≡ Rounds.slash ∷ s)
unfolding segment_end
found out gap s segs behind h =
    let buf = Rounds.buffer out gap (render (s ∷ segs)) behind in
    let r = length (out ++ gap) in
    let n = r + length (render (s ∷ segs)) in
    let at : r + 0 ≡ r = omega arith in
    let first : get_or buf (r + 0) 0 ≡ Rounds.slash =
      get_or-append_right (out ++ gap) (render (s ∷ segs) ++ behind) 0 0 in
    let front = (out ++ gap) ++ Rounds.slash ∷ [] in
    let size : r + 1 ≡ length front =
      omega (arith, length-append (out ++ gap) (Rounds.slash ∷ [])) in
    let rest : slice buf (r + 1) n ≡ s ++ render segs =
      ap (λ l. slice l (r + 1) n) (simp append_assoc refl)
      ∙ slice-append front (s ++ render segs) behind (r + 1) n size (omega arith) in
    let last : r + 1 + length s ≡ r + suc (length s) = omega arith in
    (
      rw (rw at at first)
          (rw rest (rw (until_slash-segment s (render segs) h (render-IsBoundary segs)) last)),
      ap (λ l. slice l r (r + suc (length s))) (simp append_assoc refl)
          ∙ slice-append (out ++ gap) (Rounds.slash ∷ s) (render segs ++ behind) r
              (r + suc (length s)) refl refl,
    )

-- The buffer and its cursors at a stack and the segments that are left.
abbrev Placed : List (List ℕ) → List ℕ → List (List ℕ) → List ℕ → List ℕ → ℕ → ℕ → ℕ → Type 0
Placed stack gap segs behind buf n r w =
    (buf ≡ Rounds.buffer (render_stack stack) gap (render segs) behind)
    × (r ≡ length (render_stack stack ++ gap))
    × (n ≡ r + length (render segs))
    × (w ≡ length (render_stack stack))

module _ (stack segs : List (List ℕ)) (s gap behind buf : List ℕ) (n r w : ℕ)
    (placed : Placed stack gap (s ∷ segs) behind buf n r w) where
  reads : slice buf r n ≡ render (s ∷ segs)
  reads =
      let (eb, er, en, ew) = placed in
      rw (eb, en, er) (Rounds.unread (render_stack stack) gap (render (s ∷ segs)) behind)

  -- The segment is passed over.
  skipped : Placed stack (gap ++ Rounds.slash ∷ s) segs behind buf n (r + suc (length s)) w
  skipped =
      let (eb, er, en, ew) = placed in
      let out = render_stack stack in
      (
        eb ∙ Rounds.regroup out gap (Rounds.slash ∷ s) (render segs) behind,
        omega (
          arith,
          er,
          length-append out (gap ++ Rounds.slash ∷ s),
          length-append out gap,
          length-append gap (Rounds.slash ∷ s),
        ),
        omega (arith, en, length-append s (render segs)),
        ew,
      )

  -- The segment is copied to the stack.
  pushed :
      (gap' : List ℕ) × Placed
        (s ∷ stack)
        gap'
        segs
        behind
        (copy_at w (Rounds.slash ∷ s) buf)
        n
        (r + suc (length s))
        (w + suc (length s))
  pushed =
      let (eb, er, en, ew) = placed in
      let out = render_stack stack in
      let (gap', size, copy) = Rounds.copied out gap (Rounds.slash ∷ s) (render segs) behind in
      (
        gap',
        (
          rw (ew, eb) copy,
          omega (
            arith,
            er,
            size,
            length-append (out ++ Rounds.slash ∷ s) gap',
            length-append out gap,
            length-append out (Rounds.slash ∷ s),
          ),
          omega (arith, en, length-append s (render segs)),
          omega (arith, ew, length-append out (Rounds.slash ∷ s)),
        ),
      )

-- A last dot segment is overwritten, so that an empty one is left to read.
closed :
    (stack : List (List ℕ)) (f gap behind buf : List ℕ) (x n r w : ℕ)
    → Placed stack gap ((f ++ x ∷ []) ∷ []) behind buf n r w
    → (gap' : List ℕ) × Placed stack gap'
        ([] ∷ [])
        behind
        (set buf (r + suc (length f)) Rounds.slash)
        n
        (r + suc (length f))
        w
closed stack f gap behind buf x n r w (eb, er, en, ew) =
    let out = render_stack stack in
    let front = (out ++ gap) ++ Rounds.slash ∷ f in
    let size : length front ≡ r + suc (length f) =
      omega (arith, er, length-append (out ++ gap) (Rounds.slash ∷ f)) in
    let at : r + suc (length f) ≡ length front + 0 = omega (arith, size) in
    let whole : buf ≡ front ++ x ∷ behind = eb ∙ simp append_assoc refl in
    (
      gap ++ Rounds.slash ∷ f,
      (
        rw (whole, at)
            (set-append_right front (x ∷ behind) 0 Rounds.slash ∙ simp append_assoc refl),
        sym size ∙ ap length (append_assoc out gap (Rounds.slash ∷ f)),
        omega (arith, en, length-append f (x ∷ []), length-append (f ++ x ∷ []) []),
        ew,
      ),
    )

-- The last segment of the stack is taken off.
dropped :
    (stack segs : List (List ℕ)) (gap behind buf : List ℕ) (n r w : ℕ)
    → All IsSegment stack
    → Placed stack gap segs behind buf n r w
    → (gap' : List ℕ) × Placed (tail stack) gap' segs behind buf n r (pop_segment buf w)
dropped stack segs gap behind buf n r w h (eb, er, en, ew) =
    let (gap', whole, size, pop) = Rounds.popped stack gap (render segs) behind h in
    (gap', (eb ∙ whole, er ∙ sym size, en, rw (ew, eb) pop))

tail-All : (stack : List (List ℕ)) → All IsSegment stack → All IsSegment (tail stack)
tail-All [] h = tt
tail-All (s ∷ stack) (hs, h) = h

-- Where one round leads: to a place with less to read that resolves to the same stack.
abbrev Next : List (List ℕ) → List (List ℕ) → List ℕ → List ℕ → ℕ → ℕ → ℕ → Type 0
Next stack segs behind buf n r w =
    (stack' segs' : List (List ℕ)) × (gap' buf' : List ℕ) × (r' w' : ℕ) × (step n buf r w
      ≡ (buf', r', w'))
    × Placed stack' gap' segs' behind buf' n r' w'
    × (resolve stack segs ≡ resolve stack' segs')
    × (length (render segs') < length (render segs))
    × All IsSegment stack'
    × All IsSegment segs'

module _ (stack : List (List ℕ)) (s gap behind buf : List ℕ) (n r w : ℕ) (ht : All IsSegment stack)
    (h : IsSegment s) where
  after_dot :
      (segs : List (List ℕ))
      → is_dot s ≡ true
      → All IsSegment segs
      → Placed stack gap (s ∷ segs) behind buf n r w
      → Next stack (s ∷ segs) behind buf n r w
  unfolding resolve
  after_dot [] d hs p =
      let es = same_lem s _ d in
      let (gap', q) =
        closed stack [] gap behind buf b'.' n r w
          (subst (λ x. Placed stack gap (x ∷ []) behind buf n r w) es p) in
      (
        stack,
        [] ∷ [],
        gap',
        _,
        _,
        w,
        Rounds.step_last_dot n r w buf s [] (reads stack [] s gap behind buf n r w p) d refl,
        q,
        rw d refl,
        rw es (omega arith),
        ht,
        (tt, tt),
      )
  after_dot (t ∷ segs) d hs p =
      let es = same_lem s _ d in
      let two : r + suc (length s) ≡ r + 2 = rw es (omega arith) in
      (
        stack,
        t ∷ segs,
        gap ++ Rounds.slash ∷ s,
        buf,
        r + 2,
        w,
        Rounds.step_dot n r w buf s (t ∷ segs) (reads stack (t ∷ segs) s gap behind buf n r w p) d t
            segs refl,
        rw two at (skipped stack (t ∷ segs) s gap behind buf n r w p),
        rw d refl,
        omega (arith, length-append s (render (t ∷ segs))),
        ht,
        hs,
      )

  after_dots :
      (segs : List (List ℕ))
      → is_dot s ≡ false
      → is_dots s ≡ true
      → All IsSegment segs
      → Placed stack gap (s ∷ segs) behind buf n r w
      → Next stack (s ∷ segs) behind buf n r w
  unfolding resolve
  after_dots [] d dd hs p =
      let es = same_lem s _ dd in
      let (gap', q) = dropped stack (s ∷ []) gap behind buf n r w ht p in
      let (gap'', q') =
        closed (tail stack) (b'.' ∷ []) gap' behind buf b'.' n r (pop_segment buf w) (
          subst (λ x. Placed (tail stack) gap' (x ∷ []) behind buf n r (pop_segment buf w)) es q) in
      (
        tail stack,
        [] ∷ [],
        gap'',
        _,
        _,
        _,
        Rounds.step_last_dots n r w buf s [] (reads stack [] s gap behind buf n r w p) dd refl,
        q',
        rw (d, dd) refl,
        rw es (omega arith),
        tail-All stack ht,
        (tt, tt),
      )
  after_dots (t ∷ segs) d dd hs p =
      let es = same_lem s _ dd in
      let three : r + suc (length s) ≡ r + 3 = rw es (omega arith) in
      let q = rw three at (skipped stack (t ∷ segs) s gap behind buf n r w p) in
      let (gap', q') =
        dropped stack (t ∷ segs) (gap ++ Rounds.slash ∷ s) behind buf n (r + 3) w ht q in
      (
        tail stack,
        t ∷ segs,
        gap',
        buf,
        r + 3,
        pop_segment buf w,
        Rounds.step_dots n r w buf s (t ∷ segs) (reads stack (t ∷ segs) s gap behind buf n r w p) dd
            t segs refl,
        q',
        rw (d, dd) refl,
        omega (arith, length-append s (render (t ∷ segs))),
        tail-All stack ht,
        hs,
      )

  after_segment :
      (segs : List (List ℕ))
      → is_dot s ≡ false
      → is_dots s ≡ false
      → All IsSegment segs
      → Placed stack gap (s ∷ segs) behind buf n r w
      → Next stack (s ∷ segs) behind buf n r w
  unfolding resolve
  after_segment segs d dd hs p =
      let (eb, er, en, ew) = p in
      let (e, seg) = found (render_stack stack) gap s segs behind h in
      let read = reads stack segs s gap behind buf n r w p in
      let (gap', q) = pushed stack segs s gap behind buf n r w p in
      (
        s ∷ stack,
        segs,
        gap',
        _,
        _,
        _,
        Rounds.step_segment n r w buf s segs read h d dd (rw (eb, en, er) e) (rw (eb, er) seg),
        q,
        rw (d, dd) refl,
        omega (arith, length-append s (render segs)),
        (h, ht),
        hs,
      )

  after_round :
      (segs : List (List ℕ))
      → All IsSegment segs
      → Placed stack gap (s ∷ segs) behind buf n r w
      → Next stack (s ∷ segs) behind buf n r w
  after_round segs hs p = elim (Bool-cases (is_dot s)) [
    | inl d ↦ after_dot segs d hs p
    | inr d ↦ elim (Bool-cases (is_dots s)) [
      | inl dd ↦ after_dots segs d dd hs p
      | inr dd ↦ after_segment segs d dd hs p
    ]
  ]

-- From any such place, with a round for every byte that is left and one more, the loop leaves the stack that
-- the segments resolve to.
pub sweep :
    (fuel : ℕ) (stack segs : List (List ℕ)) (gap behind buf : List ℕ) (n r w : ℕ)
    → length (render segs) < fuel
    → All IsSegment stack
    → All IsSegment segs
    → Placed stack gap segs behind buf n r w
    → Rounds.Leaves (remove_from fuel n buf r w) (render_stack (resolve stack segs))
sweep zero stack segs gap behind buf n r w hf ht hs p = absurd (omega arith)
sweep (suc fuel) stack [] gap behind buf n r w hf ht hs (eb, er, en, ew) =
    let done : ltb r n ≡ false = ground arith in
    let out = render_stack stack in
    let ends : remove_from (suc fuel) n buf r w ≡ (buf, w) = unfold remove_from in rw done refl in
    (
      gap ++ behind,
      unfold resolve in
          ends ∙ rw (eb, ew) (ap (λ l. (l, length out)) (append_assoc out gap behind)),
    )
sweep (suc fuel) stack (s ∷ segs) gap behind buf n r w hf ht (h, hs) p =
    let (stack', segs', gap', buf', r', w', e, q, same, less, ht', hs') =
      after_round stack s gap behind buf n r w ht h segs hs p in
    rw (remove_from-step fuel n r w buf buf' r' w' (omega arith) e, same)
      (sweep fuel stack' segs' gap' behind buf' n r' w' (omega arith) ht' hs' q)
