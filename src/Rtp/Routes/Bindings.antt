-- ===== src/Rtp/Routes/Bindings.antt =====
-- The table as a list of routes with distinct bindings.
use wave.Common.{
  ℕ, zero, suc, ◌+◌, ◌≤◌, ◌<◌, ◌≡◌, ◌∙◌, inl, inr, refl, ap, sym, arith, true, false, Bool-cases,
  if◌then◌else◌, ltb, ◌==◌, Option, none, some, List, [], ◌∷◌, ◌++◌, All, length, length-append,
  set, replicate, same, same_lem, same_comm,
}
use wave.Rtp.Routes.{
  Route, Table, route_max, mid_max, create, name, same_binding, flatten, any_same, add, replace,
}

same_binding_comm : (r q : Route) → same_binding r q ≡ same_binding q r
unfolding same_binding
same_binding_comm r q = ground (arith, same_comm (name r) (name q))

-- Routes of the same binding are told apart from a third alike.
same_binding_cong : (r q p : Route) → same_binding r q ≡ true → same_binding r p ≡ same_binding q p
unfolding same_binding
same_binding_cong r q p e =
    let t : r.payload_type ≡ q.payload_type = ground arith in
    let s : r.ssrc ≡ q.ssrc = ground arith in
    let l : r.mid_len ≡ q.mid_len = ground arith in
    let both : same (name r) (name q) ≡ true = ground arith in
    let n = same_lem (name r) (name q) both in rw (n, t, s, l) refl

-- The slots of a table: the routes in order, and then empty ones.
unfoldable pub slots : List Route → ℕ → List (Option Route)
slots [] k = replicate k none
slots (r ∷ rs) k = some r ∷ slots rs k

abbrev pub Distinct : List Route → Type 0
Distinct [] = Unit
Distinct (r ∷ rs) = (any_same rs r ≡ false) × Distinct rs

-- The table holds these routes: at most sixteen, with distinct bindings, and each with a name of at most 32 bytes.
abbrev pub Holds : Table → List Route → Type 0
Holds t rs =
    (k : ℕ) × (t.routes ≡ slots rs k)
    × (t.len ≡ length rs)
    × (length rs + k ≡ route_max)
    × Distinct rs
    × All (λ r. r.mid_len ≤ mid_max) rs

-- The route that is bound as `p` is.
unfoldable pub bound : List Route → Route → Option Route
bound [] p = none
bound (r ∷ rs) p = let later = bound rs p in if same_binding r p then some r else later

-- The routes behind `replace`.
pub replaced : List Route → Route → List Route
replaced [] q = []
replaced (r ∷ rs) q = let later = r ∷ replaced rs q in if same_binding r q then q ∷ rs else later

pub flatten-slots : (rs : List Route) (k : ℕ) → flatten (slots rs k) ≡ rs
unfolding flatten slots
flatten-slots [] zero = refl
flatten-slots [] (suc k) = flatten-slots [] k
flatten-slots (r ∷ rs) k = ap (λ l. r ∷ l) (flatten-slots rs k)

set-slots :
    (rs : List Route) (q : Route) (k : ℕ)
    → set (slots rs (suc k)) (length rs) (some q) ≡ slots (rs ++ q ∷ []) k
unfolding slots
set-slots [] q k = refl
set-slots (r ∷ rs) q k = ap (λ l. some r ∷ l) (set-slots rs q k)

pub replace-slots :
    (rs : List Route) (q : Route) (k : ℕ) → replace (slots rs k) q ≡ slots (replaced rs q) k
unfolding replace slots replaced
replace-slots [] q zero = refl
replace-slots [] q (suc k) = ap (λ l. none ∷ l) (replace-slots [] q k)
replace-slots (r ∷ rs) q k = elim (Bool-cases (same_binding r q)) [
  | inl e ↦ rw e refl
  | inr e ↦ rw e (ap (λ l. some r ∷ l) (replace-slots rs q k))
]

pub length-replaced : (rs : List Route) (q : Route) → length (replaced rs q) ≡ length rs
unfolding replaced
length-replaced [] q = refl
length-replaced (r ∷ rs) q = elim (Bool-cases (same_binding r q)) [
  | inl e ↦ rw e refl
  | inr e ↦ rw e (ap suc (length-replaced rs q))
]

pub replaced-All :
    (rs : List Route) (q : Route)
    → q.mid_len ≤ mid_max
    → All (λ r. r.mid_len ≤ mid_max) rs
    → All (λ r. r.mid_len ≤ mid_max) (replaced rs q)
unfolding replaced
replaced-All [] q h hs = tt
replaced-All (r ∷ rs) q h (hr, hs) = elim (Bool-cases (same_binding r q)) [
  | inl e ↦ rw e (h, hs)
  | inr e ↦ rw e (hr, replaced-All rs q h hs)
]

any_same_cong :
    (rs : List Route) (r q : Route) → same_binding r q ≡ true → any_same rs r ≡ any_same rs q
unfolding any_same
any_same_cong [] r q e = refl
any_same_cong (x ∷ rs) r q e =
    let here : same_binding x r ≡ same_binding x q =
      same_binding_comm x r ∙ same_binding_cong r q x e ∙ same_binding_comm q x in
    rw (here, any_same_cong rs r q e) refl

any_same-replaced : (rs : List Route) (r q : Route) → any_same (replaced rs q) r ≡ any_same rs r
unfolding any_same replaced
any_same-replaced [] r q = refl
any_same-replaced (x ∷ rs) r q = elim (Bool-cases (same_binding x q)) [
  | inl e ↦ rw (e, same_binding_cong x q r e) refl
  | inr e ↦ rw (e, any_same-replaced rs r q) refl
]

pub replaced-Distinct : (rs : List Route) (q : Route) → Distinct rs → Distinct (replaced rs q)
unfolding replaced
replaced-Distinct [] q d = tt
replaced-Distinct (r ∷ rs) q (n, d) = elim (Bool-cases (same_binding r q)) [
  | inl e ↦ rw e (sym (any_same_cong rs r q e) ∙ n, d)
  | inr e ↦ rw e (any_same-replaced rs r q ∙ n, replaced-Distinct rs q d)
]

-- A route of another binding in front of one that is put behind it.
bound_past :
    (r q p : Route) (rest : Option Route)
    → same_binding r q ≡ false
    → (if same_binding r p then some r else if same_binding q p then some q else rest)
      ≡ (if same_binding q p then some q else if same_binding r p then some r else rest)
bound_past r q p rest s = elim (Bool-cases (same_binding q p)) [
  | inr e ↦ rw e refl
  | inl e ↦
      let other : same_binding r p ≡ false =
        same_binding_comm r p ∙ sym (same_binding_cong q p r e) ∙ same_binding_comm q r ∙ s in
      rw (e, other) refl
]

pub bound-replaced :
    (rs : List Route) (q p : Route)
    → any_same rs q ≡ true
    → bound (replaced rs q) p ≡ (if same_binding q p then some q else bound rs p)
unfolding bound replaced any_same
bound-replaced [] q p e = cc
bound-replaced (r ∷ rs) q p e = elim (Bool-cases (same_binding r q)) [
  | inl s ↦ rw (s, same_binding_cong r q p s) (ground arith)
  | inr s ↦
      let later : any_same rs q ≡ true = rw s at e in
      rw (s, bound-replaced rs q p later) (bound_past r q p (bound rs p) s)
]

pub bound-append :
    (rs : List Route) (q p : Route)
    → any_same rs q ≡ false
    → bound (rs ++ q ∷ []) p ≡ (if same_binding q p then some q else bound rs p)
unfolding bound any_same
bound-append [] q p e = refl
bound-append (r ∷ rs) q p e =
    let s : same_binding r q ≡ false = ground arith in
    let later : any_same rs q ≡ false = ground arith in
    rw (bound-append rs q p later) (bound_past r q p (bound rs p) s)

append-Distinct :
    (rs : List Route) (q : Route) → Distinct rs → any_same rs q ≡ false → Distinct (rs ++ q ∷ [])
unfolding any_same
append-Distinct [] q d e = (refl, tt)
append-Distinct (r ∷ rs) q (n, d) e =
    let s : same_binding r q ≡ false = ground arith in
    let later : any_same rs q ≡ false = ground arith in
    (still rs r q n (same_binding_comm q r ∙ s), append-Distinct rs q d later)
  where
    still :
        (rs : List Route) (r q : Route)
        → any_same rs r ≡ false
        → same_binding q r ≡ false
        → any_same (rs ++ q ∷ []) r ≡ false
    still [] r q n s = rw s refl
    still (x ∷ rs) r q n s =
        let a : same_binding x r ≡ false = ground arith in
        let b : any_same rs r ≡ false = ground arith in rw (a, still rs r q b s) refl

append-All :
    (rs : List Route) (q : Route)
    → All (λ r. r.mid_len ≤ mid_max) rs
    → q.mid_len ≤ mid_max
    → All (λ r. r.mid_len ≤ mid_max) (rs ++ q ∷ [])
append-All [] q h hq = (hq, tt)
append-All (r ∷ rs) q (hr, h) hq = (hr, append-All rs q h hq)

-- The binding of `q` is now to `q`, and every other is as it was.
abbrev pub Rebinds : List Route → List Route → Route → Type 0
Rebinds rs rs' q = (p : Route) → bound rs' p ≡ (if same_binding q p then some q else bound rs p)

pub create-Holds : Holds create []
unfolding create slots
create-Holds = (16, refl, refl, refl, tt, tt)

pub add-Holds :
    (t : Table) (rs : List Route) (q : Route)
    → Holds t rs
    → q.mid_len ≤ mid_max
    → any_same rs q ≡ false
    → length rs < route_max
    → ((add t q).1 ≡ true) × Holds (add t q).0 (rs ++ q ∷ [])
unfolding add
add-Holds t rs q (zero, et, el, size, d, n) h fresh room = absurd (omega arith)
add-Holds t rs q (suc k, et, el, size, d, n) h fresh room =
    let named : ltb mid_max q.mid_len ≡ false = ground arith in
    let flat : flatten t.routes ≡ rs = ap flatten et ∙ flatten-slots rs (suc k) in
    let open_slot : (t.len == route_max) ≡ false = ground arith in
    let stored : set t.routes t.len (some q) ≡ slots (rs ++ q ∷ []) k =
      rw (et, el) (set-slots rs q k) in
    let count = length-append rs (q ∷ []) in
    rw (named, flat, fresh, open_slot)
      (
        refl,
        (
          k,
          stored,
          omega (arith, count),
          omega (arith, count),
          append-Distinct rs q d fresh,
          append-All rs q n h,
        ),
      )
