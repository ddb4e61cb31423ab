-- ===== src/Rtp/Routes/Negotiated.antt =====
-- What a negotiated route does to the table.
use wave.Common.{
  ◌≤◌, ◌<◌, ◌≡◌, ◌∙◌, ◌⊎◌, inl, inr, refl, ap, sym, arith, true, false, Bool-cases, ltb, ◌==◌, List,
  [], ◌∷◌, ◌++◌, length,
}
use wave.Rtp.Routes.{Route, Table, route_max, mid_max, flatten, any_same, add, replace, upsert}
use wave.Rtp.Routes.Bindings.{
  Holds, Rebinds, slots, replaced, flatten-slots, replace-slots, length-replaced, replaced-All,
  replaced-Distinct, bound-replaced, bound-append, add-Holds,
}

abbrev Taken : Table → List Route → Route → Type 0
Taken t rs q =
    (rs' : List Route) × ((upsert t q).1 ≡ true) × Holds (upsert t q).0 rs' × Rebinds rs rs' q

abbrev Refused : Table → List Route → Route → Type 0
Refused t rs q =
    ((upsert t q).1 ≡ false)
    × ((upsert t q).0 ≡ t)
    × ((mid_max < q.mid_len) ⊎ (any_same rs q ≡ false) × (length rs ≡ route_max))

module _ (t : Table) (rs : List Route) (q : Route) (held : Holds t rs) where
  flat : flatten t.routes ≡ rs
  flat = let (k, et, el, size, d, n) = held in ap flatten et ∙ flatten-slots rs k

  oversized : mid_max < q.mid_len → Refused t rs q
  unfolding upsert
  oversized h =
      let long : ltb mid_max q.mid_len ≡ true = ground arith in rw long (refl, refl, inl h)

  rebound : q.mid_len ≤ mid_max → any_same rs q ≡ true → Taken t rs q
  unfolding upsert
  rebound h here =
      let (k, et, el, size, d, n) = held in
      let named : ltb mid_max q.mid_len ≡ false = ground arith in
      let moved : replace t.routes q ≡ slots (replaced rs q) k =
        ap (λ s. replace s q) et ∙ replace-slots rs q k in
      let count = length-replaced rs q in
      rw (named, flat, here)
        (
          replaced rs q,
          refl,
          (
            k,
            moved,
            el ∙ sym count,
            omega (arith, count),
            replaced-Distinct rs q d,
            replaced-All rs q h n,
          ),
          λ p. bound-replaced rs q p here,
        )

  appended : q.mid_len ≤ mid_max → any_same rs q ≡ false → length rs < route_max → Taken t rs q
  unfolding upsert
  appended h fresh room =
      let named : ltb mid_max q.mid_len ≡ false = ground arith in
      let (done, after) = add-Holds t rs q held h fresh room in
      rw (named, flat, fresh) (rs ++ q ∷ [], done, after, λ p. bound-append rs q p fresh)

  full : q.mid_len ≤ mid_max → any_same rs q ≡ false → length rs ≡ route_max → Refused t rs q
  unfolding upsert add
  full h fresh size =
      let (k, et, el, whole, d, n) = held in
      let named : ltb mid_max q.mid_len ≡ false = ground arith in
      let last : (t.len == route_max) ≡ true = ground arith in
      rw (named, flat, fresh, last) (refl, refl, inr (refl, size))

-- A table that holds routes takes another: the route of the same binding is replaced, or the route is put
-- behind the others, and then the table holds routes of distinct bindings, at most sixteen, with
-- this binding to this route and every other as it was. It refuses, and stays as it is, only if the name
-- is longer than 32 bytes, or if the binding is new and sixteen are held.
pub upsert_lem :
    (t : Table) (rs : List Route) (q : Route)
    → Holds t rs
    → ((rs' : List Route) × ((upsert t q).1 ≡ true) × Holds (upsert t q).0 rs' × Rebinds rs rs' q)
      ⊎ ((upsert t q).1 ≡ false)
        × ((upsert t q).0 ≡ t)
        × ((mid_max < q.mid_len) ⊎ (any_same rs q ≡ false) × (length rs ≡ route_max))
upsert_lem t rs q held = elim (Bool-cases (ltb mid_max q.mid_len)) [
  | inl long ↦ inr (oversized t rs q held (ground arith))
  | inr short ↦ elim (Bool-cases (any_same rs q)) [
    | inl here ↦ inl (rebound t rs q held (ground arith) here)
    | inr fresh ↦ elim (Bool-cases (length rs == route_max)) [
      | inl size ↦ inr (full t rs q held (ground arith) fresh (ground arith))
      | inr size ↦
          let (k, et, el, whole, d, n) = held in
          inl (appended t rs q held (ground arith) fresh (ground arith))
    ]
  ]
]
