-- ===== src/Common/Lists.antt =====
-- Slices and arrays as lists with native indices.
use Prim.Native.Nat.{ℕ, zero, suc, ◌+◌, ◌-◌, ◌≤◌, ◌<◌, min}
use mathlib.Core.Path.{◌≡◌, refl, ap, sym, ◌∙◌}
use mathlib.Core.Logic.{◌≢◌}
use mathlib.Core.List.{List, [], ◌∷◌, ◌++◌, append_assoc}
use native.Mathlib.Omega.{arith}

module _ {ℓ} {A : Type ℓ} where
  abbrev pub length : List A → ℕ
  length [] = 0
  length (x ∷ xs) = suc (length xs)

  abbrev pub get_or : List A → ℕ → A → A
  get_or [] i d = d
  get_or (x ∷ xs) zero d = x
  get_or (x ∷ xs) (suc i) d = get_or xs i d

  abbrev pub set : List A → ℕ → A → List A
  set [] i v = []
  set (x ∷ xs) zero v = v ∷ xs
  set (x ∷ xs) (suc i) v = x ∷ set xs i v

  abbrev pub take : ℕ → List A → List A
  take zero xs = []
  take (suc n) [] = []
  take (suc n) (x ∷ xs) = x ∷ take n xs

  abbrev pub drop : ℕ → List A → List A
  drop zero xs = xs
  drop (suc n) [] = []
  drop (suc n) (x ∷ xs) = drop n xs

  abbrev pub replicate : ℕ → A → List A
  replicate zero a = []
  replicate (suc n) a = a ∷ replicate n a

  abbrev pub All {κ} : (A → Type κ) → List A → Type κ
  All P [] = Unit {κ}
  All P (x ∷ xs) = P x × All P xs

-- `&buf[a..b]`
abbrev pub slice {ℓ} : {A : Type ℓ} → List A → ℕ → ℕ → List A
slice buf a b = take (b - a) (drop a buf)

-- `out[at..at + src.len()].copy_from_slice(src)`
abbrev pub copy_at {ℓ} : {A : Type ℓ} → ℕ → List A → List A → List A
copy_at at src out = take at out ++ (src ++ drop (at + length src) out)

module _ {ℓ} {A : Type ℓ} where
  pub length-append : (xs ys : List A) → length (xs ++ ys) ≡ length xs + length ys
  length-append [] ys = omega arith
  length-append (x ∷ xs) ys = omega (arith, length-append xs ys)

  pub length-set : (xs : List A) (i : ℕ) (v : A) → length (set xs i v) ≡ length xs
  length-set [] i v = refl
  length-set (x ∷ xs) zero v = refl
  length-set (x ∷ xs) (suc i) v = ap suc (length-set xs i v)

  pub get_or-set_self :
      (xs : List A) (i : ℕ) (v d : A) → i < length xs → get_or (set xs i v) i d ≡ v
  get_or-set_self [] i v d h = absurd (omega arith)
  get_or-set_self (x ∷ xs) zero v d h = refl
  get_or-set_self (x ∷ xs) (suc i) v d h = get_or-set_self xs i v d (omega arith)

  pub get_or-set_ne :
      (xs : List A) (i j : ℕ) (v d : A) → i ≢ j → get_or (set xs i v) j d ≡ get_or xs j d
  get_or-set_ne [] i j v d h = refl
  get_or-set_ne (x ∷ xs) zero zero v d h = absurd (h refl)
  get_or-set_ne (x ∷ xs) zero (suc j) v d h = refl
  get_or-set_ne (x ∷ xs) (suc i) zero v d h = refl
  get_or-set_ne (x ∷ xs) (suc i) (suc j) v d h = get_or-set_ne xs i j v d (λ e. h (ap suc e))

  pub get_or-replicate : (n i : ℕ) (v : A) → get_or (replicate n v) i v ≡ v
  get_or-replicate zero i v = refl
  get_or-replicate (suc n) zero v = refl
  get_or-replicate (suc n) (suc i) v = get_or-replicate n i v

  pub get_or-append_left :
      (xs ys : List A) (i : ℕ) (d : A) → i < length xs → get_or (xs ++ ys) i d ≡ get_or xs i d
  get_or-append_left [] ys i d h = absurd (omega arith)
  get_or-append_left (x ∷ xs) ys zero d h = refl
  get_or-append_left (x ∷ xs) ys (suc i) d h = get_or-append_left xs ys i d (omega arith)

  pub get_or-append_right :
      (xs ys : List A) (i : ℕ) (d : A) → get_or (xs ++ ys) (length xs + i) d ≡ get_or ys i d
  get_or-append_right [] ys i d = ap (λ k. get_or ys k d) (omega arith)
  get_or-append_right (x ∷ xs) ys i d =
      ap (λ k. get_or (x ∷ (xs ++ ys)) k d) suc_in ∙ get_or-append_right xs ys i d
    where
      suc_in : suc (length xs) + i ≡ suc (length xs + i)
      suc_in = omega arith

  pub take-append : (xs ys : List A) → take (length xs) (xs ++ ys) ≡ xs
  take-append [] ys = refl
  take-append (x ∷ xs) ys = ap (λ l. x ∷ l) (take-append xs ys)

  pub drop-append : (xs ys : List A) → drop (length xs) (xs ++ ys) ≡ ys
  drop-append [] ys = refl
  drop-append (x ∷ xs) ys = drop-append xs ys

  pub set-append_right :
      (xs ys : List A) (i : ℕ) (v : A) → set (xs ++ ys) (length xs + i) v ≡ xs ++ set ys i v
  set-append_right [] ys i v = ap (λ k. set ys k v) (omega arith)
  set-append_right (x ∷ xs) ys i v =
      let next : suc (length xs) + i ≡ suc (length xs + i) = omega arith in
      ap (λ k. set (x ∷ (xs ++ ys)) k v) next ∙ ap (λ l. x ∷ l) (set-append_right xs ys i v)

  pub drop-append_left :
      (n : ℕ) (xs ys : List A) → n ≤ length xs → drop n (xs ++ ys) ≡ drop n xs ++ ys
  drop-append_left zero xs ys h = refl
  drop-append_left (suc n) [] ys h = absurd (omega arith)
  drop-append_left (suc n) (x ∷ xs) ys h = drop-append_left n xs ys (omega arith)

  pub take-length : (xs : List A) → take (length xs) xs ≡ xs
  take-length [] = refl
  take-length (x ∷ xs) = ap (λ l. x ∷ l) (take-length xs)

  pub length-take : (n : ℕ) (xs : List A) → length (take n xs) ≡ min n (length xs)
  length-take zero xs = omega arith
  length-take (suc n) [] = omega arith
  length-take (suc n) (x ∷ xs) = omega (arith, length-take n xs)

  pub length-drop : (n : ℕ) (xs : List A) → length (drop n xs) ≡ length xs - n
  length-drop zero xs = omega arith
  length-drop (suc n) [] = omega arith
  length-drop (suc n) (x ∷ xs) = omega (arith, length-drop n xs)

  pub length-replicate : (n : ℕ) (a : A) → length (replicate n a) ≡ n
  length-replicate zero a = refl
  length-replicate (suc n) a = ap suc (length-replicate n a)

  pub take-append-drop : (n : ℕ) (xs : List A) → take n xs ++ drop n xs ≡ xs
  take-append-drop zero xs = refl
  take-append-drop (suc n) [] = refl
  take-append-drop (suc n) (x ∷ xs) = ap (λ l. x ∷ l) (take-append-drop n xs)

  pub drop-nil : (n : ℕ) → drop {A = A} n [] ≡ []
  drop-nil zero = refl
  drop-nil (suc n) = refl

  pub drop-drop : (m n : ℕ) (xs : List A) → drop m (drop n xs) ≡ drop (n + m) xs
  drop-drop m zero xs = let e : 0 + m ≡ m = omega arith in rw e
  drop-drop m (suc n) [] = let e : suc n + m ≡ suc (n + m) = omega arith in rw e (drop-nil m)
  drop-drop m (suc n) (x ∷ xs) =
      let e : suc n + m ≡ suc (n + m) = omega arith in rw e (drop-drop m n xs)

  -- Writing right behind the `at` elements that are written already.
  pub copy_at_next :
      (pre src out : List A) (at : ℕ)
      → at ≡ length pre
      → copy_at at src (pre ++ drop at out) ≡ (pre ++ src) ++ drop (at + length src) out
  copy_at_next pre src out at e =
      ap (λ l. l ++ (src ++ drop (at + length src) (pre ++ drop at out))) front
      ∙ (ap (λ l. pre ++ (src ++ l)) behind ∙ sym (append_assoc pre src _))
    where
      front : take at (pre ++ drop at out) ≡ pre
      front = rw e (take-append pre (drop (length pre) out))

      behind : drop (at + length src) (pre ++ drop at out) ≡ drop (at + length src) out
      behind =
          sym (drop-drop (length src) at (pre ++ drop at out))
          ∙ (ap (drop (length src)) (ap (λ k. drop k (pre ++ drop at out)) e ∙ drop-append pre _)
              ∙ drop-drop (length src) at out)

  pub get_or-append_here :
      (pre rest : List A) (x d : A) (i : ℕ) → i ≡ length pre → get_or (pre ++ x ∷ rest) i d ≡ x
  get_or-append_here pre rest x d i e =
      let at : i ≡ length pre + 0 = omega arith in rw at (get_or-append_right pre (x ∷ rest) 0 d)

  pub slice-append :
      (pre mid rest : List A) (a b : ℕ)
      → a ≡ length pre
      → b ≡ a + length mid
      → slice ((pre ++ mid) ++ rest) a b ≡ mid
  slice-append pre mid rest a b ea eb =
      ap (λ l. take (b - a) (drop a l)) (append_assoc pre mid rest)
      ∙ (ap (λ n. take (b - a) (drop n (pre ++ (mid ++ rest)))) ea
          ∙ (ap (take (b - a)) (drop-append pre (mid ++ rest))
              ∙ (ap (λ n. take n (mid ++ rest)) width_eq ∙ take-append mid rest)))
    where
      width_eq : b - a ≡ length mid
      width_eq = omega arith

  -- Writing over what stands behind a prefix.
  pub copy_at_over :
      (xs src ys : List A) (at : ℕ)
      → at ≡ length xs
      → copy_at at src (xs ++ ys) ≡ xs ++ (src ++ drop (length src) ys)
  copy_at_over xs src ys at e =
      ap (λ (k : ℕ). copy_at k src (xs ++ ys)) e
      ∙ rw
          (
            take-append xs ys,
            sym (drop-drop (length src) (length xs) (xs ++ ys)),
            drop-append xs ys,
          )
          refl

  -- The same where it replaces as many bytes.
  pub copy_at_same :
      (xs src old ys : List A) (at : ℕ)
      → at ≡ length xs
      → length src ≡ length old
      → copy_at at src (xs ++ (old ++ ys)) ≡ xs ++ (src ++ ys)
  copy_at_same xs src old ys at e k =
      copy_at_over xs src (old ++ ys) at e ∙ rw (k, drop-append old ys) refl

  pub slice_middle :
      (xs mid ys : List A) (a b : ℕ)
      → a ≡ length xs
      → b ≡ a + length mid
      → slice (xs ++ (mid ++ ys)) a b ≡ mid
  slice_middle xs mid ys a b ea eb =
      ap (λ (l : List A). slice l a b) (sym (append_assoc xs mid ys))
      ∙ slice-append xs mid ys a b ea eb

  pub take_front : (xs ys : List A) (n : ℕ) → n ≡ length xs → take n (xs ++ ys) ≡ xs
  take_front xs ys n e = ap (λ (k : ℕ). take k (xs ++ ys)) e ∙ take-append xs ys

  pub drop_back : (xs ys : List A) (n : ℕ) → n ≡ length xs → drop n (xs ++ ys) ≡ ys
  drop_back xs ys n e = ap (λ (k : ℕ). drop k (xs ++ ys)) e ∙ drop-append xs ys
