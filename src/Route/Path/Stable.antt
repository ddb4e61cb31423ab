-- ===== src/Route/Path/Stable.antt =====
-- What the percent-encoding normalisation writes is a fixed point of it.
use wave.Common.{
  ℕ, suc, ◌+◌, ◌*◌, ◌^◌, ◌≤◌, ◌≡◌, ◌∙◌, refl, sym, arith, true, false, leb, ◌==◌, some, List, [],
  ◌∷◌, ◌++◌, length, length-append, bit_or, Bool-cases, Option-cases, inl, inr,
}
use wave.Common.Bytes.{u8}
use wave.Route.{Result, ok, err}
use wave.Route.Path.{
  is_alphanumeric, unreserved, pchar_ok, hex_val, to_upper, then_ok, plain, escaped, unescape,
}
use wave.Route.Path.Segments.{IsSegment}
use wave.Route.Path.Escapes.{
  plain-cons, escape-cons, escape_cut, escape_cut_one, escaped-bad, escaped-first,
}

then_ok-eq-ok :
    (bs : List ℕ) (rest : Result (List ℕ)) (t : List ℕ)
    → then_ok bs rest ≡ ok t
    → (out : List ℕ) × (rest ≡ ok out) × (t ≡ bs ++ out)
then_ok-eq-ok bs (ok out) t e = (out, refl, cc)
then_ok-eq-ok bs (err x) t e = cc

-- Bytes that are written: no slash, no more than were read, and kept by a second pass.
abbrev Kept : ℕ → List ℕ → Type 0
Kept n bs =
    IsSegment bs
    × (length bs ≤ n)
    × ((out : List ℕ) → unescape out ≡ ok out → unescape (bs ++ out) ≡ ok (bs ++ out))

unreserved-plain :
    (v : ℕ)
    → unreserved v ≡ true
    → (leb 128 v ≡ false) × ((v == b'%') ≡ false) × ((v == b'/') ≡ false)
unfolding unreserved is_alphanumeric
unreserved-plain v e = ground arith

to_upper_lem :
    (h v : ℕ)
    → hex_val h ≡ some v
    → (hex_val (to_upper h) ≡ some v)
      × (to_upper (to_upper h) ≡ to_upper h)
      × ((to_upper h == b'/') ≡ false)
unfolding hex_val to_upper
to_upper_lem h v e = ground arith

plain-Kept :
    (b : ℕ)
    → (b == b'%') ≡ false
    → (b == b'/') ≡ false
    → leb 128 b ≡ false
    → pchar_ok b ≡ true
    → Kept 1 (b ∷ [])
plain-Kept b e s a p =
    ((s, tt), omega arith, λ out h. plain-cons b out e ∙ (unfold plain in rw (h, a, p) refl))

plain-eq-ok :
    (b : ℕ) (rest : Result (List ℕ)) (t : List ℕ)
    → (b == b'%') ≡ false
    → (b == b'/') ≡ false
    → plain b rest ≡ ok t
    → (out : List ℕ) × (rest ≡ ok out) × (t ≡ b ∷ [] ++ out) × Kept 1 (b ∷ [])
unfolding plain
plain-eq-ok b rest t e s h = elim (Bool-cases (leb 128 b)) [
  | inl a ↦ let bad = rw a at h in cc
  | inr a ↦ elim (Bool-cases (pchar_ok b)) [
    | inl p ↦
        let (out, r, w) = then_ok-eq-ok (b ∷ []) rest t (rw p at (rw a at h)) in
        (out, r, w, plain-Kept b e s a p)
    | inr p ↦ let bad = rw p at (rw a at h) in cc
  ]
]

pchar-unreserved : (v : ℕ) → unreserved v ≡ true → pchar_ok v ≡ true
unfolding pchar_ok
pchar-unreserved v u = ground arith

module _ (h l v v' : ℕ) (n : hex_val h ≡ some v) (m : hex_val l ≡ some v') where
  value : ℕ
  value = bit_or (u8 (v * 2 ^ 4)) v'

  escape : List ℕ
  escape = b'%' ∷ to_upper h ∷ to_upper l ∷ []

  escaped_plain :
      (rest : Result (List ℕ))
      → unreserved value ≡ true
      → escaped h l rest ≡ then_ok (value ∷ []) rest
  unfolding escaped value
  escaped_plain rest u = rw (n, escaped, m, u) refl

  escaped_again :
      (rest : Result (List ℕ)) → unreserved value ≡ false → escaped h l rest ≡ then_ok escape rest
  unfolding escaped value escape
  escaped_again rest u = rw (n, escaped, m, u) refl

  value-Kept : unreserved value ≡ true → Kept 3 (value ∷ [])
  value-Kept u =
      let (a, p, s) = unreserved-plain value u in
      let (seg, size, kept) = plain-Kept value p s a (pchar-unreserved value u) in
      (seg, omega arith, kept)

escape-Kept :
    (h l v v' : ℕ) (n : hex_val h ≡ some v) (m : hex_val l ≡ some v')
    → unreserved (value h l v v' n m) ≡ false
    → Kept 3 (escape h l v v' n m)
unfolding escape value
escape-Kept h l v v' n m u =
    let (n', hu, hs) = to_upper_lem h v n in
    let (m', lu, ls) = to_upper_lem l v' m in
    (
      (refl, (hs, (ls, tt))),
      omega arith,
      λ out k.
          escape-cons b'%' (to_upper h) (to_upper l) out refl
          ∙ escaped_again (to_upper h) (to_upper l) v v' n' m' (unescape out) u
          ∙ (unfold escape in rw (k, hu, lu) refl),
    )

escaped-eq-ok :
    (h l : ℕ) (rest : Result (List ℕ)) (t : List ℕ)
    → escaped h l rest ≡ ok t
    → (bs : List ℕ) × (out : List ℕ) × (rest ≡ ok out) × (t ≡ bs ++ out) × Kept 3 bs
escaped-eq-ok h l rest t e = elim (Option-cases (hex_val h)) [
  | inl n ↦ let bad = sym (escaped-first h l rest n) ∙ e in cc
  | inr (v, n) ↦ elim (Option-cases (hex_val l)) [
    | inl m ↦ let bad = sym (escaped-bad h l rest m) ∙ e in cc
    | inr (v', m) ↦ elim (Bool-cases (unreserved (value h l v v' n m))) [
      | inl u ↦
          let (out, r, w) =
            then_ok-eq-ok (value h l v v' n m ∷ []) rest t
              (sym (escaped_plain h l v v' n m rest u) ∙ e) in
          (value h l v v' n m ∷ [], out, r, w, value-Kept h l v v' n m u)
      | inr u ↦
          let (out, r, w) =
            then_ok-eq-ok (escape h l v v' n m) rest t
              (sym (escaped_again h l v v' n m rest u) ∙ e) in
          (escape h l v v' n m, out, r, w, escape-Kept h l v v' n m u)
    ]
  ]
]

All-append : (x y : List ℕ) → IsSegment x → IsSegment y → IsSegment (x ++ y)
All-append [] y hx hy = hy
All-append (b ∷ x) y (hb, hx) hy = (hb, All-append x y hx hy)

-- The result for `n` more bytes that are read.
abbrev Stable : ℕ → List ℕ → Type 0
Stable n t = IsSegment t × (length t ≤ n) × (unescape t ≡ ok t)

Stable-Kept :
    (n m : ℕ) (bs out t : List ℕ) → Kept n bs → Stable m out → t ≡ bs ++ out → Stable (n + m) t
Stable-Kept n m bs out t (seg, size, kept) (seg', size', fixed) e =
    rw e (All-append bs out seg seg', omega (arith, length-append bs out), kept out fixed)

Stable-plain :
    (b : ℕ) (src t : List ℕ)
    → (b == b'%') ≡ false
    → (b == b'/') ≡ false
    → unescape (b ∷ src) ≡ ok t
    → ((out : List ℕ) → unescape src ≡ ok out → Stable (length src) out)
    → Stable (suc (length src)) t
Stable-plain b src t p s e behind =
    let (out, r, w, k) = plain-eq-ok b (unescape src) t p s (sym (plain-cons b src p) ∙ e) in
    let size : suc (length src) ≡ 1 + length src = omega arith in
    rw size (Stable-Kept 1 (length src) (b ∷ []) out t k (behind out r) w)

-- A normalised segment has no slash, is no longer, and is normalised to itself.
pub unescape_fixed : (s t : List ℕ) → IsSegment s → unescape s ≡ ok t → Stable (length s) t
unescape_fixed [] t hs e =
    let none_read : t ≡ [] = unfold unescape in cc in
    rw none_read (tt, omega arith, unfold unescape in refl)
unescape_fixed (b ∷ []) t (hb, hs) e = elim (Bool-cases (b == b'%')) [
  | inl p ↦ let bad = sym (escape_cut b p) ∙ e in cc
  | inr p ↦ Stable-plain b [] t p hb e (λ out r. unescape_fixed [] out tt r)
]
unescape_fixed (b ∷ h ∷ []) t (hb, hs) e = elim (Bool-cases (b == b'%')) [
  | inl p ↦ let bad = sym (escape_cut_one b h p) ∙ e in cc
  | inr p ↦ Stable-plain b (h ∷ []) t p hb e (λ out r. unescape_fixed (h ∷ []) out hs r)
]
unescape_fixed (b ∷ h ∷ l ∷ src) t (hb, hs) e = elim (Bool-cases (b == b'%')) [
  | inl p ↦
      let (bs, out, r, w, k) =
        escaped-eq-ok h l (unescape src) t (sym (escape-cons b h l src p) ∙ e) in
      let size : suc (suc (suc (length src))) ≡ 3 + length src = omega arith in
      rw size (Stable-Kept 3 (length src) bs out t k (unescape_fixed src out hs.1.1 r) w)
  | inr p ↦ Stable-plain b (h ∷ l ∷ src) t p hb e (λ out r. unescape_fixed (h ∷ l ∷ src) out hs r)
]
