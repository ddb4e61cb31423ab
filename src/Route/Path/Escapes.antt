-- ===== src/Route/Path/Escapes.antt =====
-- The percent-encoding normalisation of `norm_path`, segment by segment.
use wave.Common.{
  ℕ, ◌*◌, ◌^◌, ◌≡◌, ◌∙◌, refl, ap, sym, true, false, leb, ◌==◌, none, List, [], ◌∷◌, ◌++◌, bit_or,
  append_assoc, append-nil, Bool-cases, Option-cases, inl, inr,
}
use wave.Common.Bytes.{u8}
use wave.Route.{Result, ok, err, ◌>>=◌, bad_path}
use wave.Route.Path.{
  is_alphanumeric, unreserved, pchar_ok, hex_val, to_upper, then_ok, plain, escaped, unescape,
}
use wave.Route.Path.Segments.{render}

-- Two results, with a slash between them.
abbrev joined : Result (List ℕ) → Result (List ℕ) → Result (List ℕ)
joined a b = a >>= λ x. b >>= λ y. ok (x ++ b'/' ∷ y)

plain-slash : (rest : Result (List ℕ)) → plain b'/' rest ≡ joined (ok []) rest
unfolding plain pchar_ok unreserved is_alphanumeric
plain-slash rest = refl

hex_val-slash : hex_val b'/' ≡ none
unfolding hex_val
hex_val-slash = refl

pub escaped-bad :
    (h l : ℕ) (rest : Result (List ℕ)) → hex_val l ≡ none → escaped h l rest ≡ err bad_path
unfolding escaped
escaped-bad h l rest e = elim (Option-cases (hex_val h)) [
  | inl n ↦ rw (n, escaped) refl
  | inr (v, n) ↦ rw (n, escaped, e) refl
]

pub escaped-first :
    (h l : ℕ) (rest : Result (List ℕ)) → hex_val h ≡ none → escaped h l rest ≡ err bad_path
unfolding escaped
escaped-first h l rest e = rw (e, escaped) refl

pub plain-cons :
    (b : ℕ) (src : List ℕ) → (b == b'%') ≡ false → unescape (b ∷ src) ≡ plain b (unescape src)
unfolding unescape
plain-cons b [] e = rw e refl
plain-cons b (h ∷ []) e = rw e refl
plain-cons b (h ∷ l ∷ src) e = rw e refl

unescape-slash : (src : List ℕ) → unescape (b'/' ∷ src) ≡ joined (ok []) (unescape src)
unescape-slash src = plain-cons b'/' src refl ∙ plain-slash (unescape src)

then_ok-joined :
    (bs : List ℕ) (x y : Result (List ℕ)) → then_ok bs (joined x y) ≡ joined (then_ok bs x) y
then_ok-joined bs (ok x) (ok y) = ap ok (sym (append_assoc bs x (b'/' ∷ y)))
then_ok-joined bs (ok x) (err e) = refl
then_ok-joined bs (err e) y = refl

plain-joined : (b : ℕ) (x y : Result (List ℕ)) → plain b (joined x y) ≡ joined (plain b x) y
unfolding plain
plain-joined b x y = elim (Bool-cases (leb 128 b)) [
  | inl e ↦ rw e refl
  | inr e ↦ elim (Bool-cases (pchar_ok b)) [
    | inl p ↦ rw (e, p) (then_ok-joined (b ∷ []) x y)
    | inr p ↦ rw (e, p) refl
  ]
]

escaped-joined :
    (h l : ℕ) (x y : Result (List ℕ)) → escaped h l (joined x y) ≡ joined (escaped h l x) y
unfolding escaped
escaped-joined h l x y = elim (Option-cases (hex_val h)) [
  | inl n ↦ rw (n, escaped) refl
  | inr (v, n) ↦ elim (Option-cases (hex_val l)) [
    | inl m ↦ rw (n, escaped, m) refl
    | inr (v', m) ↦ elim (Bool-cases (unreserved (bit_or (u8 (v * 2 ^ 4)) v'))) [
      | inl u ↦ rw (n, escaped, m, u) (then_ok-joined (bit_or (u8 (v * 2 ^ 4)) v' ∷ []) x y)
      | inr u ↦ rw (n, escaped, m, u) (then_ok-joined (b'%' ∷ to_upper h ∷ to_upper l ∷ []) x y)
    ]
  ]
]

pub escape-cons :
    (b h l : ℕ) (src : List ℕ)
    → (b == b'%') ≡ true
    → unescape (b ∷ h ∷ l ∷ src) ≡ escaped h l (unescape src)
unfolding unescape
escape-cons b h l src e = rw e refl

pub escape_cut : (b : ℕ) → (b == b'%') ≡ true → unescape (b ∷ []) ≡ err bad_path
unfolding unescape
escape_cut b e = rw e refl

pub escape_cut_one : (b h : ℕ) → (b == b'%') ≡ true → unescape (b ∷ h ∷ []) ≡ err bad_path
unfolding unescape
escape_cut_one b h e = rw e refl

escape_slash : (b : ℕ) (y : List ℕ) → (b == b'%') ≡ true → unescape (b ∷ b'/' ∷ y) ≡ err bad_path
escape_slash b [] e = escape_cut_one b b'/' e
escape_slash b (c ∷ y) e =
    escape-cons b b'/' c y e ∙ escaped-first b'/' c (unescape y) hex_val-slash

-- An escape does not reach over a slash.
pub unescape-append : (x y : List ℕ) → unescape (x ++ b'/' ∷ y) ≡ joined (unescape x) (unescape y)
unescape-append [] y = unescape-slash y ∙ unfold unescape in refl
unescape-append (b ∷ []) y = elim (Bool-cases (b == b'%')) [
  | inl e ↦ rw (escape_slash b y e, escape_cut b e) refl
  | inr e ↦
      rw (plain-cons b (b'/' ∷ y) e, plain-cons b [] e, unescape-append [] y)
        (plain-joined b (unescape []) (unescape y))
]
unescape-append (b ∷ h ∷ []) y = elim (Bool-cases (b == b'%')) [
  | inl e ↦
      rw (escape-cons b h b'/' y e, escape_cut_one b h e)
        (escaped-bad h b'/' (unescape y) hex_val-slash)
  | inr e ↦
      rw (plain-cons b (h ∷ b'/' ∷ y) e, plain-cons b (h ∷ []) e, unescape-append (h ∷ []) y)
        (plain-joined b (unescape (h ∷ [])) (unescape y))
]
unescape-append (b ∷ h ∷ l ∷ x) y = elim (Bool-cases (b == b'%')) [
  | inl e ↦
      rw (escape-cons b h l (x ++ b'/' ∷ y) e, escape-cons b h l x e, unescape-append x y)
        (escaped-joined h l (unescape x) (unescape y))
  | inr e ↦
      rw
        (
          plain-cons b (h ∷ l ∷ (x ++ b'/' ∷ y)) e,
          plain-cons b (h ∷ l ∷ x) e,
          unescape-append (h ∷ l ∷ x) y,
        )
        (plain-joined b (unescape (h ∷ l ∷ x)) (unescape y))
]

-- Every segment on its own, and the first error.
unfoldable pub unescape_all : List (List ℕ) → Result (List (List ℕ))
unescape_all [] = ok []
unescape_all (s ∷ segs) = unescape s >>= λ t. unescape_all segs >>= λ ts. ok (t ∷ ts)

regrouped :
    (x y : Result (List ℕ)) (z : Result (List (List ℕ)))
    → joined x (y >>= λ t. z >>= λ ts. ok (t ++ render ts))
      ≡ (x >>= λ s. (y >>= λ t. z >>= λ ts. ok (t ∷ ts)) >>= λ ts. ok (s ++ render ts))
regrouped (ok x) (ok y) (ok z) = refl
regrouped (ok x) (ok y) (err e) = refl
regrouped (ok x) (err e) z = refl
regrouped (err e) y z = refl

ends : (x : Result (List ℕ)) → x ≡ (x >>= λ t. ok (t ++ []))
ends (ok x) = ap ok (sym (append-nil x))
ends (err e) = refl

unescape-segments :
    (s : List ℕ) (segs : List (List ℕ))
    → unescape (s ++ render segs)
      ≡ (unescape s >>= λ t. unescape_all segs >>= λ ts. ok (t ++ render ts))
unescape-segments s [] = unfold unescape_all in ap unescape (append-nil s) ∙ ends (unescape s)
unescape-segments s (t ∷ segs) =
    unescape-append s (t ++ render segs)
    ∙ ap (joined (unescape s)) (unescape-segments t segs)
    ∙ (unfold unescape_all in regrouped (unescape s) (unescape t) (unescape_all segs))

pub unescape-render :
    (segs : List (List ℕ)) → unescape (render segs) ≡ (unescape_all segs >>= λ ts. ok (render ts))
unescape-render [] = unfold unescape unescape_all in refl
unescape-render (s ∷ segs) =
    unescape-slash (s ++ render segs)
    ∙ ap (joined (ok [])) (unescape-segments s segs)
    ∙ (unfold unescape_all in regrouped (ok []) (unescape s) (unescape_all segs))
