-- ===== src/Common/ByteStrings.antt =====
-- Comparisons of byte strings.
use wave.Common.Tests.{◌==◌}
use Prim.Native.Nat.{ℕ}
use mathlib.Core.Path.{◌≡◌, refl}
use mathlib.Core.Bool.{Bool, true, false, ◌&&◌}
use mathlib.Core.List.{List, [], ◌∷◌}
use native.Mathlib.Omega.{arith}

abbrev pub starts_with : List ℕ → List ℕ → Bool
starts_with s [] = true
starts_with [] (p ∷ ps) = false
starts_with (b ∷ s) (p ∷ ps) = b == p && starts_with s ps

-- `s == p`
abbrev pub same : List ℕ → List ℕ → Bool
same [] [] = true
same [] (p ∷ ps) = false
same (b ∷ s) [] = false
same (b ∷ s) (p ∷ ps) = b == p && same s ps

pub same_lem : (s p : List ℕ) → same s p ≡ true → s ≡ p
same_lem [] [] e = refl
same_lem [] (p ∷ ps) e = cc
same_lem (b ∷ s) [] e = cc
same_lem (b ∷ s) (p ∷ ps) e =
    let first : b ≡ p = ground arith in
    let later : same s ps ≡ true = ground arith in cc (first, same_lem s ps later)

pub same_refl : (s : List ℕ) → same s s ≡ true
same_refl [] = refl
same_refl (b ∷ s) = ground (arith, same_refl s)

pub same_comm : (s p : List ℕ) → same s p ≡ same p s
same_comm [] [] = refl
same_comm [] (p ∷ ps) = refl
same_comm (b ∷ s) [] = refl
same_comm (b ∷ s) (p ∷ ps) = ground (arith, same_comm s ps)
