-- ===== src/Common/BigEndian.antt =====
-- Big-endian integers of a width that is known only at run time, in unsigned 64-bit arithmetic.
use Prim.Native.Nat.{ℕ, zero, suc, ◌+◌, ◌*◌, ◌/◌, ◌%◌, ◌^◌, ◌<◌, ◌≤◌, bit_or, bit_and}
use mathlib.Core.Path.{◌≡◌, refl, ap, sym, ◌∙◌}
use mathlib.Core.List.{List, [], ◌∷◌, ◌++◌, append_assoc}
use native.Mathlib.Nat.{pow-suc}
use native.Mathlib.Omega.{arith}
use wave.Common.Lists.{length, length-append, length-set, set, drop}
use wave.Common.Bits.{bit_or_disjoint, bit_and-mask}

-- The `w` lowest bytes of `v`, highest first.
abbrev pub be_bytes : ℕ → ℕ → List ℕ
be_bytes zero v = []
be_bytes (suc w) v = be_bytes w (v / 256) ++ (v % 256 ∷ [])

-- `(value << 8) | u64::from(byte)`
pub shift_in : ℕ → ℕ → ℕ
shift_in value byte = bit_or (value * 2 ^ 8 % 2 ^ 64) byte

-- `for byte in bytes { value = (value << 8) | u64::from(*byte) }`
unfoldable pub read_be_from : ℕ → List ℕ → ℕ
unfolding shift_in
read_be_from value [] = value
read_be_from value (b ∷ bs) = read_be_from (shift_in value b) bs

pub length-be_bytes : (w v : ℕ) → length (be_bytes w v) ≡ w
length-be_bytes zero v = refl
length-be_bytes (suc w) v =
    length-append (be_bytes w (v / 256)) (v % 256 ∷ []) ∙ omega (arith, length-be_bytes w (v / 256))

pub shift_in_lem :
    (value byte : ℕ)
    → value * 256 + byte < 2 ^ 64
    → byte < 256
    → shift_in value byte ≡ value * 256 + byte
unfolding shift_in
shift_in_lem value byte h k = ap (λ (t : ℕ). bit_or t byte) fits ∙ bit_or_disjoint 8 value byte k
  where
    fits : value * 2 ^ 8 % 2 ^ 64 ≡ value * 2 ^ 8
    fits = omega arith

read_be_from-append :
    (value : ℕ) (xs ys : List ℕ)
    → read_be_from value (xs ++ ys) ≡ read_be_from (read_be_from value xs) ys
unfolding read_be_from
read_be_from-append value [] ys = refl
read_be_from-append value (x ∷ xs) ys = read_be_from-append (shift_in value x) xs ys

-- Reading the bytes of a number that fits gives the number back.
pub read_be_from-be_bytes :
    (w v acc : ℕ)
    → v < 256 ^ w
    → acc * 256 ^ w + v < 2 ^ 64
    → read_be_from acc (be_bytes w v) ≡ acc * 256 ^ w + v
read_be_from-be_bytes zero v acc h k = unfold read_be_from in omega arith
read_be_from-be_bytes (suc w) v acc h k =
    read_be_from-append acc (be_bytes w (v / 256)) (v % 256 ∷ [])
    ∙ ap (λ (t : ℕ). read_be_from t (v % 256 ∷ []))
        (read_be_from-be_bytes w (v / 256) acc (omega (arith, pow-suc 256 w)) below)
    ∙ unfold read_be_from in
      shift_in_lem (acc * 256 ^ w + v / 256) (v % 256) (omega (arith, whole)) (omega arith)
      ∙ omega (arith, whole)
  where
    whole : acc * 256 ^ suc w ≡ acc * 256 ^ w * 256
    whole = omega (arith, ap (λ (t : ℕ). acc * t) (pow-suc 256 w))

    below : acc * 256 ^ w + v / 256 < 2 ^ 64
    below = omega (arith, whole)

drop-set : (out : List ℕ) (i v : ℕ) → i < length out → drop i (set out i v) ≡ v ∷ drop (suc i) out
drop-set [] i v h = absurd (omega arith)
drop-set (x ∷ out) zero v h = refl
drop-set (x ∷ out) (suc i) v h = drop-set out i v (omega arith)

-- `while i > 0 { i -= 1; out[i] = (value & 0xff) as u8; value >>= 8; }`
unfoldable pub write_down : ℕ → ℕ → List ℕ → List ℕ
write_down zero value out = out
write_down (suc i) value out = write_down i (value / 2 ^ 8) (set out i (bit_and value 0xff))

-- The loop leaves the big-endian bytes in front of what it does not touch.
pub write_down-be_bytes :
    (i value : ℕ) (out : List ℕ)
    → i ≤ length out
    → write_down i value out ≡ be_bytes i value ++ drop i out
unfolding write_down
write_down-be_bytes zero value out h = refl
write_down-be_bytes (suc i) value out h =
    write_down-be_bytes i (value / 256) (set out i (bit_and value 0xff))
      (omega (arith, length-set out i (bit_and value 0xff)))
    ∙ rw (drop-set out i (bit_and value 0xff) h, bit_and-mask 8 value)
        (sym (append_assoc (be_bytes i (value / 256)) (value % 256 ∷ []) (drop (suc i) out)))
