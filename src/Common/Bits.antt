-- ===== src/Common/Bits.antt =====
-- Laws of `&`, `|` and `^` on unsigned words, from the digit recursion that the native operations
-- stand for.
use Prim.Native.Nat.{
  ℕ, zero, suc, ◌+◌, ◌-◌, ◌*◌, ◌/◌, ◌%◌, ◌^◌, ◌≤◌, ◌<◌, min, max, bit_and, bit_or, bit_xor, digits,
  differ, bit_and-bitwise, bit_or-bitwise, bit_xor-bitwise,
}
use mathlib.Core.Path.{◌≡◌, sym, refl, ap, ◌∙◌}
use native.Mathlib.Nat.{
  pow-suc, div-div-eq-div-mul, div-add-mod', mod-lt, mod-eq_of_lt, mul-add-mod_self_right,
}
use native.Mathlib.Omega.{arith}

-- Induction by halving, as the digits of a number are read.
halving_fuel :
    (P : ℕ → Type 0) (k : ℕ) (a : ℕ) → a ≤ k → P zero → ((x : ℕ) → P (suc x / 2) → P (suc x)) → P a
halving_fuel P k zero room base step = base
halving_fuel P zero (suc x) room base step = absurd (omega arith)
halving_fuel P (suc k) (suc x) room base step =
    step x (halving_fuel P k (suc x / 2) (omega arith) base step)

halving : (P : ℕ → Type 0) → P zero → ((x : ℕ) → P (suc x / 2) → P (suc x)) → (a : ℕ) → P a
halving P base step a = halving_fuel P a a (omega arith) base step

-- The digit recursion of one operation, whatever rounds it is given.
module _ (rest : ℕ → ℕ) (op : ℕ → ℕ → ℕ) where
  no_digits : (rounds b : ℕ) → digits rest op rounds zero b ≡ rest b
  no_digits zero b = refl
  no_digits (suc rounds) b = refl

  -- Any two numbers of rounds that are enough agree.
  Settled : ℕ → Type 0
  Settled a = (i j b : ℕ) → a ≤ i → a ≤ j → digits rest op i a b ≡ digits rest op j a b

  Settled-suc : (x : ℕ) → Settled (suc x / 2) → Settled (suc x)
  unfolding Settled
  Settled-suc x ih (suc i) (suc j) b p q =
      ap (λ d. d * 2 + op (suc x % 2) (b % 2)) (ih i j (b / 2) (omega arith) (omega arith))
  Settled-suc x ih zero j b p q = absurd (omega arith)
  Settled-suc x ih (suc i) zero b p q = absurd (omega arith)

  all-Settled : (a : ℕ) → Settled a
  unfolding Settled
  all-Settled = halving Settled (λ i j b p q. no_digits i b ∙ sym (no_digits j b)) Settled-suc

  -- One digit at a time, without the rounds.
  first_digit :
      (x b : ℕ)
      → digits rest op (suc x) (suc x) b
        ≡ digits rest op (suc x / 2) (suc x / 2) (b / 2) * 2 + op (suc x % 2) (b % 2)
  unfolding Settled
  first_digit x b =
      ap (λ d. d * 2 + op (suc x % 2) (b % 2))
        (all-Settled (suc x / 2) x (suc x / 2) (b / 2) (omega arith) (omega arith))

pub bit_and_step : (x y : ℕ) → bit_and x y ≡ bit_and (x / 2) (y / 2) * 2 + min (x % 2) (y % 2)
bit_and_step zero y = omega (arith, bit_and-bitwise 0 (y / 2), bit_and-bitwise 0 y)
bit_and_step (suc x) b =
    bit_and-bitwise (suc x) b
    ∙ (first_digit (λ _. zero) min x b
        ∙ ap (λ d. d * 2 + min (suc x % 2) (b % 2)) (sym (bit_and-bitwise (suc x / 2) (b / 2))))

pub bit_or_step : (x y : ℕ) → bit_or x y ≡ bit_or (x / 2) (y / 2) * 2 + max (x % 2) (y % 2)
bit_or_step zero y = omega (arith, bit_or-bitwise 0 (y / 2), bit_or-bitwise 0 y)
bit_or_step (suc x) b =
    bit_or-bitwise (suc x) b
    ∙ (first_digit (λ y. y) max x b
        ∙ ap (λ d. d * 2 + max (suc x % 2) (b % 2)) (sym (bit_or-bitwise (suc x / 2) (b / 2))))

pub zero-bit_or : (b : ℕ) → bit_or 0 b ≡ b
zero-bit_or b = bit_or-bitwise 0 b

pub bit_and-zero : (a : ℕ) → bit_and a 0 ≡ 0
bit_and-zero =
    halving (λ a. bit_and a 0 ≡ 0) refl (λ x ih. omega (arith, bit_and_step (suc x) 0, ih))

pub bit_and-le : (a b : ℕ) → bit_and a b ≤ a
bit_and-le =
    halving (λ a. (b : ℕ) → bit_and a b ≤ a)
      (λ b. omega (arith, bit_and_step 0 b, bit_and-bitwise 0 (b / 2)))
      (λ x ih b. omega (arith, bit_and_step (suc x) b, ih (b / 2)))

pub bit_or-zero : (a : ℕ) → bit_or a 0 ≡ a
bit_or-zero = halving (λ a. bit_or a 0 ≡ a) refl (λ x ih. omega (arith, bit_or_step (suc x) 0, ih))

half_pow : (k : ℕ) → 2 ^ suc k / 2 ≡ 2 ^ k
half_pow k = omega (arith, pow-suc 2 k)

pow_even : (k : ℕ) → 2 ^ suc k % 2 ≡ 0
pow_even k = omega (arith, pow-suc 2 k)

pub pow-pos : (k : ℕ) → 0 < 2 ^ k
pow-pos zero = omega arith
pow-pos (suc k) = omega (arith, pow-suc 2 k, pow-pos k)

half_mask : (k : ℕ) → (2 ^ suc k - 1) / 2 ≡ 2 ^ k - 1
half_mask k = omega (arith, pow-suc 2 k, pow-pos k)

pub mod_double : (x p : ℕ) → 0 < p → x % (p * 2) ≡ x / 2 % p * 2 + x % 2
mod_double x p h =
    ap (λ (t : ℕ). t % (p * 2)) split
    ∙ mul-add-mod_self_right (x / 2 / p) (p * 2) (x / 2 % p * 2 + x % 2)
    ∙ mod-eq_of_lt (omega (arith, mod-lt (x / 2) h))
  where
    split : x ≡ x / 2 / p * (p * 2) + (x / 2 % p * 2 + x % 2)
    split = omega (arith, div-add-mod' (x / 2) p)

-- `x & (2^k - 1)`
pub bit_and-mask : (k x : ℕ) → bit_and x (2 ^ k - 1) ≡ x % 2 ^ k
bit_and-mask zero x = omega (arith, bit_and-zero x)
bit_and-mask (suc k) x =
    bit_and_step x (2 ^ suc k - 1)
    ∙ rw (half_mask k, bit_and-mask k (x / 2), pow-suc)
        (omega (arith, mod_double x (2 ^ k) (pow-pos k), pow-pos k))

-- `(a << k) | b` with `b` below `2^k`
pub bit_or_disjoint : (k a b : ℕ) → b < 2 ^ k → bit_or (a * 2 ^ k) b ≡ a * 2 ^ k + b
bit_or_disjoint zero a b h = let e : b ≡ 0 = omega arith in rw e (bit_or-zero (a * 1) ∙ omega arith)
bit_or_disjoint (suc k) a b h =
    bit_or_step (a * 2 ^ suc k) b
    ∙ rw (double_half, bit_or_disjoint k a (b / 2) (omega (arith, pow-suc 2 k)))
        (omega (arith, ap (λ (t : ℕ). a * t) (pow-suc 2 k)))
  where
    double_half : a * 2 ^ suc k / 2 ≡ a * 2 ^ k
    double_half = omega (arith, ap (λ (t : ℕ). a * t) (pow-suc 2 k))

-- One bit of a word.
abbrev pub bit : ℕ → ℕ → ℕ
bit x d = x / 2 ^ d % 2

pub div-pow_suc : (x d : ℕ) → x / 2 / 2 ^ d ≡ x / 2 ^ suc d
div-pow_suc x d =
    div-div-eq-div-mul x 2 (2 ^ d) ∙ ap (λ (t : ℕ). x / t) (omega (arith, pow-suc 2 d))

min_even : (x d : ℕ) → min (x % 2) (2 ^ suc d % 2) ≡ 0
min_even x d = omega (arith, pow_even d)

max_even : (x d : ℕ) → max (x % 2) (2 ^ suc d % 2) ≡ x % 2
max_even x d = omega (arith, pow_even d)

-- `x & (1 << d)`
pub bit_and-pow : (d x : ℕ) → bit_and x (2 ^ d) ≡ bit x d * 2 ^ d
bit_and-pow zero x = bit_and_step x 1 ∙ omega (arith, bit_and-zero (x / 2))
bit_and-pow (suc d) x =
    bit_and_step x (2 ^ suc d)
    ∙ rw (half_pow d, min_even x d, bit_and-pow d (x / 2), div-pow_suc x d)
        (omega (arith, ap (λ (t : ℕ). bit x (suc d) * t) (pow-suc 2 d)))

-- `x | (1 << d)` where that bit is 0
pub bit_or-pow : (d x : ℕ) → bit x d ≡ 0 → bit_or x (2 ^ d) ≡ x + 2 ^ d
bit_or-pow zero x h = bit_or_step x 1 ∙ omega (arith, bit_or-zero (x / 2))
bit_or-pow (suc d) x h =
    bit_or_step x (2 ^ suc d)
    ∙ rw (half_pow d, max_even x d, bit_or-pow d (x / 2) (rw (div-pow_suc x d) h))
        (omega (arith, pow-suc 2 d))

pub bit_xor_step : (a b : ℕ) → bit_xor a b ≡ bit_xor (a / 2) (b / 2) * 2 + differ (a % 2) (b % 2)
bit_xor_step zero b = omega (arith, bit_xor-bitwise 0 b, bit_xor-bitwise 0 (b / 2))
bit_xor_step (suc x) b =
    bit_xor-bitwise (suc x) b
    ∙ (first_digit (λ y. y) differ x b
        ∙ ap (λ d. d * 2 + differ (suc x % 2) (b % 2)) (sym (bit_xor-bitwise (suc x / 2) (b / 2))))

differ_bits : (x y : ℕ) → x < 2 → y < 2 → (differ x y < 2) × (differ (differ x y) y ≡ x)
differ_bits zero zero h k = (omega arith, refl)
differ_bits zero (suc zero) h k = (omega arith, refl)
differ_bits zero (suc (suc y)) h k = absurd (omega arith)
differ_bits (suc zero) zero h k = (omega arith, refl)
differ_bits (suc zero) (suc zero) h k = (omega arith, refl)
differ_bits (suc zero) (suc (suc y)) h k = absurd (omega arith)
differ_bits (suc (suc x)) y h k = absurd (omega arith)

-- The half and the lowest bit of an exclusive or.
bit_xor_half :
    (a b : ℕ)
    → (bit_xor a b / 2 ≡ bit_xor (a / 2) (b / 2)) × (bit_xor a b % 2 ≡ differ (a % 2) (b % 2))
bit_xor_half a b =
    let (small, _) = differ_bits (a % 2) (b % 2) (omega arith) (omega arith) in
    (omega (arith, bit_xor_step a b), omega (arith, bit_xor_step a b))

bit_xor_twice_fuel : (n a k : ℕ) → a ≤ n → k ≤ n → bit_xor (bit_xor a k) k ≡ a
bit_xor_twice_fuel zero zero zero h h' = refl
bit_xor_twice_fuel zero zero (suc k) h h' = absurd (omega arith)
bit_xor_twice_fuel zero (suc a) k h h' = absurd (omega arith)
bit_xor_twice_fuel (suc n) a k h h' =
    bit_xor_step (bit_xor a k) k
    ∙ rw
        (
          (bit_xor_half a k).0,
          (bit_xor_half a k).1,
          bit_xor_twice_fuel n (a / 2) (k / 2) (omega arith) (omega arith),
          (differ_bits (a % 2) (k % 2) (omega arith) (omega arith)).1,
        )
        (omega arith)

-- XOR with the same key twice gives the word back.
pub bit_xor_twice : (a k : ℕ) → bit_xor (bit_xor a k) k ≡ a
bit_xor_twice a k = bit_xor_twice_fuel (a + k) a k (omega arith) (omega arith)

-- XOR of two words of `w` bits has `w` bits.
pub bit_xor-lt : (w a b : ℕ) → a < 2 ^ w → b < 2 ^ w → bit_xor a b < 2 ^ w
bit_xor-lt zero a b ha hb = let (ea, eb) = zeros in rw (ea, eb) (omega arith)
  where
    zeros : (a ≡ 0) × (b ≡ 0)
    zeros = (omega arith, omega arith)
bit_xor-lt (suc w) a b ha hb =
    let (half, low) = bit_xor_half a b in
    let (small, _) = differ_bits (a % 2) (b % 2) (omega arith) (omega arith) in
    omega (
      arith,
      pow-suc 2 w,
      bit_xor_step a b,
      bit_xor-lt w (a / 2) (b / 2) (omega (arith, pow-suc 2 w)) (omega (arith, pow-suc 2 w)),
    )

-- OR of two words of `w` bits has `w` bits.
pub bit_or-lt : (w a b : ℕ) → a < 2 ^ w → b < 2 ^ w → bit_or a b < 2 ^ w
bit_or-lt zero a b ha hb = let (ea, eb) = zeros in rw (ea, eb) (omega arith)
  where
    zeros : (a ≡ 0) × (b ≡ 0)
    zeros = (omega arith, omega arith)
bit_or-lt (suc w) a b ha hb = omega (
  arith,
  pow-suc 2 w,
  bit_or_step a b,
  bit_or-lt w (a / 2) (b / 2) (omega (arith, pow-suc 2 w)) (omega (arith, pow-suc 2 w)),
)

bit_or_comm_fuel : (n a b : ℕ) → a ≤ n → b ≤ n → bit_or a b ≡ bit_or b a
bit_or_comm_fuel zero zero zero h k = refl
bit_or_comm_fuel zero (suc a) b h k = absurd (omega arith)
bit_or_comm_fuel zero zero (suc b) h k = absurd (omega arith)
bit_or_comm_fuel (suc n) a b h k = omega (
  arith,
  bit_or_step a b,
  bit_or_step b a,
  bit_or_comm_fuel n (a / 2) (b / 2) (omega arith) (omega arith),
)

pub bit_or_comm : (a b : ℕ) → bit_or a b ≡ bit_or b a
bit_or_comm a b = bit_or_comm_fuel (a + b) a b (omega arith) (omega arith)

-- `b | (a << k)` with `b` below `2^k`
pub bit_or_disjoint_right : (k a b : ℕ) → b < 2 ^ k → bit_or b (a * 2 ^ k) ≡ a * 2 ^ k + b
bit_or_disjoint_right k a b h = bit_or_comm b (a * 2 ^ k) ∙ bit_or_disjoint k a b h

-- XOR works on the low and the high part of a word separately.
pub bit_xor_parts :
    (k a b x y : ℕ)
    → a < 2 ^ k
    → b < 2 ^ k
    → bit_xor (a + x * 2 ^ k) (b + y * 2 ^ k) ≡ bit_xor a b + bit_xor x y * 2 ^ k
bit_xor_parts zero a b x y ha hb =
    let za : a ≡ 0 = omega arith in
    let zb : b ≡ 0 = omega arith in
    let sx : 0 + x * 1 ≡ x = omega arith in
    let sy : 0 + y * 1 ≡ y = omega arith in rw (za, zb) (rw (sx, sy) (omega arith))
bit_xor_parts (suc k) a b x y ha hb =
    bit_xor_step (a + x * 2 ^ suc k) (b + y * 2 ^ suc k)
    ∙ rw (half a x, half b y, low a x, low b y)
        (ap (λ (t : ℕ). t * 2 + differ (a % 2) (b % 2))
            (bit_xor_parts k (a / 2) (b / 2) x y (omega (arith, pow-suc 2 k))
              (omega (arith, pow-suc 2 k)))
          ∙ omega (arith, bit_xor_step a b, ap (λ (t : ℕ). bit_xor x y * t) (pow-suc 2 k)))
  where
    half : (c z : ℕ) → (c + z * 2 ^ suc k) / 2 ≡ c / 2 + z * 2 ^ k
    half c z = omega (arith, ap (λ (t : ℕ). z * t) (pow-suc 2 k))

    low : (c z : ℕ) → (c + z * 2 ^ suc k) % 2 ≡ c % 2
    low c z = omega (arith, ap (λ (t : ℕ). z * t) (pow-suc 2 k))

pub zero-bit_xor : (b : ℕ) → bit_xor 0 b ≡ b
zero-bit_xor b = bit_xor-bitwise 0 b

-- A word is its own inverse for XOR, and has no other.
pub bit_xor-eq_zero : (a b : ℕ) → bit_xor a b ≡ 0 → a ≡ b
bit_xor-eq_zero a b e = sym (bit_xor_twice a b) ∙ (ap (λ t. bit_xor t b) e ∙ zero-bit_xor b)

pub bit_xor_self : (a : ℕ) → bit_xor a a ≡ 0
bit_xor_self a = ap (λ t. bit_xor t a) (sym (zero-bit_xor a)) ∙ bit_xor_twice 0 a

bit_or-eq_zero_fuel : (n a b : ℕ) → a ≤ n → bit_or a b ≡ 0 → a ≡ 0
bit_or-eq_zero_fuel n zero b h e = refl
bit_or-eq_zero_fuel zero (suc a) b h e = absurd (omega arith)
bit_or-eq_zero_fuel (suc n) (suc a) b h e = omega (
  arith,
  bit_or_step (suc a) b,
  bit_or-eq_zero_fuel n (suc a / 2) (b / 2) (omega arith) (omega (arith, bit_or_step (suc a) b)),
)

-- Only zeros have the disjunction 0.
pub bit_or-eq_zero : (a b : ℕ) → bit_or a b ≡ 0 → (a ≡ 0) × (b ≡ 0)
bit_or-eq_zero a b e =
    let z = bit_or-eq_zero_fuel a a b (omega arith) e in
    (z, sym (zero-bit_or b) ∙ (ap (λ t. bit_or t b) (sym z) ∙ e))

differ_comm : (a b : ℕ) → differ a b ≡ differ b a
differ_comm zero zero = refl
differ_comm zero (suc b) = refl
differ_comm (suc a) zero = refl
differ_comm (suc a) (suc b) = differ_comm a b

bit_xor_comm_fuel : (n a b : ℕ) → a ≤ n → b ≤ n → bit_xor a b ≡ bit_xor b a
bit_xor_comm_fuel zero zero zero h k = refl
bit_xor_comm_fuel zero (suc a) b h k = absurd (omega arith)
bit_xor_comm_fuel zero zero (suc b) h k = absurd (omega arith)
bit_xor_comm_fuel (suc n) a b h k = omega (
  arith,
  differ_comm (a % 2) (b % 2),
  bit_xor_step a b,
  bit_xor_step b a,
  bit_xor_comm_fuel n (a / 2) (b / 2) (omega arith) (omega arith),
)

bit_xor_comm : (a b : ℕ) → bit_xor a b ≡ bit_xor b a
bit_xor_comm a b = bit_xor_comm_fuel (a + b) a b (omega arith) (omega arith)

pub bit_xor_cancel : (n a b : ℕ) → bit_xor n a ≡ bit_xor n b → a ≡ b
bit_xor_cancel n a b e =
    sym (bit_xor_twice a n)
    ∙ (ap (λ t. bit_xor t n) (bit_xor_comm a n ∙ e ∙ bit_xor_comm n b) ∙ bit_xor_twice b n)
