-- ===== src/Rtp/Routes/Resolve.antt =====
-- Which route `resolve` answers.
use wave.Common.{
  ℕ, ◌≤◌, ◌<◌, ◌≡◌, ◌⊎◌, inl, inr, refl, ap, arith, true, false, Bool-cases, leb, Option, none,
  some, List, [], ◌∷◌, ◌++◌, All,
}
use wave.Rtp.Routes.{Route, Table, flatten, accepts, specificity, resolve_from, resolve}

module _ (mid : List ℕ) (payload_type ssrc : ℕ) where
  -- The route stands in the list and accepts; none before it that accepts is more specific, and every one
  -- behind it that accepts is less.
  abbrev pub IsBest : List Route → Route → Type 0
  IsBest rs r =
      (xs ys : List Route) × (rs ≡ xs ++ r ∷ ys)
      × (accepts r mid payload_type ssrc ≡ true)
      × All (λ q. accepts q mid payload_type ssrc ≡ true → specificity q ≤ specificity r) xs
      × All (λ q. accepts q mid payload_type ssrc ≡ true → specificity q < specificity r) ys

  abbrev pub NoneAccepts : List Route → Type 0
  NoneAccepts rs = All (λ q. accepts q mid payload_type ssrc ≡ false) rs

  -- The loop keeps what it has, or ends with the best of the list.
  Loop : List Route → Option Route → ℕ → Type 0
  Loop rs best score =
      (resolve_from rs mid payload_type ssrc best score ≡ best)
        × All (λ q. accepts q mid payload_type ssrc ≡ true → specificity q < score) rs
      ⊎ (r : Route) × (resolve_from rs mid payload_type ssrc best score ≡ some r)
        × (score ≤ specificity r)
        × IsBest rs r

  loop_lem : (rs : List Route) (best : Option Route) (score : ℕ) → Loop rs best score
  unfolding Loop resolve_from
  loop_lem [] best score = inl (refl, tt)
  loop_lem (q ∷ rs) best score = elim (Bool-cases (accepts q mid payload_type ssrc)) [
    | inr no_route ↦ rw no_route (elim (loop_lem rs best score) [
      | inl (e, less) ↦ inl (e, (λ y. cc, less))
      | inr (r, e, h, (xs, ys, split, a, before, behind)) ↦
          inr (r, e, h, (q ∷ xs, ys, ap (λ l. q ∷ l) split, a, (λ y. cc, before), behind))
    ])
    | inl route ↦ elim (Bool-cases (leb score (specificity q))) [
      | inl wins ↦
          rw (route, wins)
            (elim (loop_lem rs (some q) (specificity q)) [
              | inl (e, less) ↦ inr (q, e, ground arith, ([], rs, refl, route, tt, less))
              | inr (r, e, h, (xs, ys, split, a, before, behind)) ↦ inr (
                r,
                e,
                ground arith,
                (q ∷ xs, ys, ap (λ l. q ∷ l) split, a, (λ y. h, before), behind),
              )
            ])
      | inr loses ↦
          rw (route, loses)
            (elim (loop_lem rs best score) [
              | inl (e, less) ↦ inl (e, (λ y. ground arith, less))
              | inr (r, e, h, (xs, ys, split, a, before, behind)) ↦ inr (
                r,
                e,
                h,
                (q ∷ xs, ys, ap (λ l. q ∷ l) split, a, (λ y. ground arith, before), behind),
              )
            ])
    ]
  ]

  refused_everywhere :
      (rs : List Route)
      → All (λ q. accepts q mid payload_type ssrc ≡ true → specificity q < 0) rs
      → NoneAccepts rs
  refused_everywhere [] h = tt
  refused_everywhere (q ∷ rs) (hq, h) = elim (Bool-cases (accepts q mid payload_type ssrc)) [
    | inl y ↦ absurd (omega (arith, hq y))
    | inr n ↦ (n, refused_everywhere rs h)
  ]

  -- A packet is resolved to no route exactly when no route of the table accepts it, and to a route only if that
  -- is one of the most specific among those that accept, and the last of these.
  pub resolve-IsBest :
      (t : Table)
      → (resolve t mid payload_type ssrc ≡ none) × NoneAccepts (flatten t.routes)
        ⊎ (r : Route) × (resolve t mid payload_type ssrc ≡ some r) × IsBest (flatten t.routes) r
  unfolding resolve Loop
  resolve-IsBest t = elim (loop_lem (flatten t.routes) none 0) [
    | inl (e, h) ↦ inl (e, refused_everywhere (flatten t.routes) h)
    | inr (r, e, h, best) ↦ inr (r, e, best)
  ]
