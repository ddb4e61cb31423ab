-- ===== src/Common/BitIndex.antt =====
-- Single bits of a word under shifts, masks and a set bit.
use Prim.Native.Nat.{ℕ, zero, suc, ◌+◌, ◌-◌, ◌*◌, ◌/◌, ◌%◌, ◌^◌, ◌<◌}
use mathlib.Core.Path.{◌≡◌, refl, ap, sym, ◌∙◌}
use native.Mathlib.Nat.{pow-suc}
use native.Mathlib.Omega.{arith}
use wave.Common.Tests.{◌==◌, ltb, if◌then◌else◌}
use wave.Common.Bits.{bit, div-pow_suc, mod_double, pow-pos}

pub bit-suc : (x d : ℕ) → bit x (suc d) ≡ bit (x / 2) d
bit-suc x d = ap (λ t. t % 2) (sym (div-pow_suc x d))

pub bit-zero : (d : ℕ) → bit 0 d ≡ 0
bit-zero zero = refl
bit-zero (suc d) = bit-suc 0 d ∙ bit-zero d

pub bit-one : (d : ℕ) → bit 1 d ≡ (if d == 0 then 1 else 0)
bit-one zero = refl
bit-one (suc d) = bit-suc 1 d ∙ (bit-zero d ∙ ground arith)

half_double : (x s : ℕ) → x * 2 ^ suc s / 2 ≡ x * 2 ^ s
half_double x s = omega (arith, ap (λ (t : ℕ). x * t) (pow-suc 2 s))

-- `x << s`
pub bit-shift : (s d x : ℕ) → bit (x * 2 ^ s) d ≡ (if ltb d s then 0 else bit x (d - s))
bit-shift zero d x =
    let same : x * 2 ^ 0 ≡ x = omega arith in
    let none_less : d - 0 ≡ d = omega arith in rw (same, none_less) (ground arith)
bit-shift (suc s) zero x =
    let even : x * 2 ^ suc s / 2 ^ 0 % 2 ≡ 0 = omega (arith, ap (λ (t : ℕ). x * t) (pow-suc 2 s)) in
    even ∙ ground arith
bit-shift (suc s) (suc d) x =
    let less : suc d - suc s ≡ d - s = omega arith in
    bit-suc (x * 2 ^ suc s) d
    ∙ (ap (λ (t : ℕ). bit t d) (half_double x s) ∙ (bit-shift s d x ∙ rw less (ground arith)))

mod-pow_suc : (w x : ℕ) → x % 2 ^ suc w ≡ x / 2 % 2 ^ w * 2 + x % 2
mod-pow_suc w x = ap (λ (t : ℕ). x % t) (pow-suc 2 w) ∙ mod_double x (2 ^ w) (pow-pos w)

low_bit : (w x : ℕ) → x % 2 ^ suc w % 2 ≡ x % 2
low_bit w x = omega (arith, mod-pow_suc w x)

half-mod : (w x : ℕ) → x % 2 ^ suc w / 2 ≡ x / 2 % 2 ^ w
half-mod w x = omega (arith, mod-pow_suc w x)

-- `x mod 2^w` keeps the bits below `w`.
pub bit-mod : (w d x : ℕ) → d < w → bit (x % 2 ^ w) d ≡ bit x d
bit-mod zero d x h = absurd (omega arith)
bit-mod (suc w) zero x h = omega (arith, low_bit w x)
bit-mod (suc w) (suc d) x h =
    bit-suc (x % 2 ^ suc w) d
    ∙ (ap (λ (t : ℕ). bit t d) (half-mod w x)
        ∙ (bit-mod w d (x / 2) (omega arith) ∙ sym (bit-suc x d)))

-- An even word with its lowest bit set.
pub bit-odd : (d x : ℕ) → x % 2 ≡ 0 → bit (x + 1) d ≡ (if d == 0 then 1 else bit x d)
bit-odd zero x h = omega arith
bit-odd (suc d) x h =
    let same : (x + 1) / 2 ≡ x / 2 = omega arith in
    bit-suc (x + 1) d ∙ (ap (λ (t : ℕ). bit t d) same ∙ (sym (bit-suc x d) ∙ ground arith))

-- Setting a bit that is 0.
pub bit-set : (d e x : ℕ) → bit x d ≡ 0 → bit (x + 2 ^ d) e ≡ (if e == d then 1 else bit x e)
bit-set zero e x h = bit-odd e x (omega arith)
bit-set (suc d) zero x h =
    let same : (x + 2 ^ suc d) / 2 ^ 0 % 2 ≡ x / 2 ^ 0 % 2 = omega (arith, pow-suc 2 d) in
    same ∙ ground arith
bit-set (suc d) (suc e) x h =
    let half : (x + 2 ^ suc d) / 2 ≡ x / 2 + 2 ^ d = omega (arith, pow-suc 2 d) in
    bit-suc (x + 2 ^ suc d) e
    ∙ (ap (λ (t : ℕ). bit t e) half
        ∙ (bit-set d e (x / 2) (sym (bit-suc x d) ∙ h) ∙ rw (bit-suc x e) (ground arith)))
