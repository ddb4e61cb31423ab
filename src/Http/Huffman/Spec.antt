-- ===== src/Http/Huffman/Spec.antt =====
-- What a Huffman string stands for: the bits of its bytes are the codes of the symbols, one behind the
-- other, and then the padding.
use wave.Common.{
  ℕ, zero, suc, ◌/◌, ◌%◌, ◌^◌, ◌≡◌, ◌∙◌, refl, ap, arith, Option, some, >>=_assoc, ◌>>=◌, sym, List,
  [], ◌∷◌, ◌++◌, bit_and, get_or,
}
use wave.Common.Bits.{bit_and-mask}
use wave.Http.Huffman.{Walk, take_bit, take_bits, take_bytes}

-- The `len` bits of a code, highest first.
unfoldable pub code_bits : ℕ → ℕ → List ℕ
code_bits code zero = []
code_bits code (suc len) = code_bits (code / 2) len ++ (code % 2 ∷ [])

unfoldable pub symbol_bits : List (ℕ × ℕ) → ℕ → List ℕ
symbol_bits table sym = let (code, len) = get_or table sym (0, 0) in code_bits code len

unfoldable pub string_bits : List (ℕ × ℕ) → List ℕ → List ℕ
string_bits table [] = []
string_bits table (sym ∷ s) = symbol_bits table sym ++ string_bits table s

-- The bits of a byte string.
unfoldable pub bits_of : List ℕ → List ℕ
unfolding code_bits
bits_of [] = []
bits_of (byte ∷ src) = code_bits byte 8 ++ bits_of src

-- The loop of the decoder over a list of bits.
unfoldable pub walk : List (ℕ × ℕ) → ℕ → List ℕ → Walk → Option Walk
walk table room [] w = some w
walk table room (bit ∷ bits) w = do next ← take_bit table room w bit; walk table room bits next

pub walk-append :
    (table : List (ℕ × ℕ)) (room : ℕ) (xs ys : List ℕ) (w : Walk)
    → walk table room (xs ++ ys) w ≡ (walk table room xs w >>= λ next. walk table room ys next)
unfolding walk
walk-append table room [] ys w = refl
walk-append table room (x ∷ xs) ys w =
    ap (λ f. take_bit table room w x >>= f) (λ i next. walk-append table room xs ys next i)
    ∙ sym (
        >>=_assoc (take_bit table room w x) (λ next. walk table room xs next)
          (λ next. walk table room ys next))

-- `(byte >> b) & 1` for `b` from 7 down.
shifted_bits : ℕ → ℕ → List ℕ
shifted_bits byte zero = []
shifted_bits byte (suc b) = bit_and (byte / 2 ^ b) 1 ∷ shifted_bits byte b

low_bit : (x y : ℕ) → x ≡ y → bit_and x 1 ≡ y % 2
low_bit x y e = bit_and-mask 1 x ∙ omega (arith, e)

shifted_bits-code : (byte : ℕ) → shifted_bits byte 8 ≡ code_bits byte 8
unfolding shifted_bits code_bits
shifted_bits-code byte =
    rw
      (
        low_bit (byte / 2 ^ 7) (byte / 2 / 2 / 2 / 2 / 2 / 2 / 2) (omega arith),
        low_bit (byte / 2 ^ 6) (byte / 2 / 2 / 2 / 2 / 2 / 2) (omega arith),
        low_bit (byte / 2 ^ 5) (byte / 2 / 2 / 2 / 2 / 2) (omega arith),
        low_bit (byte / 2 ^ 4) (byte / 2 / 2 / 2 / 2) (omega arith),
        low_bit (byte / 2 ^ 3) (byte / 2 / 2 / 2) (omega arith),
        low_bit (byte / 2 ^ 2) (byte / 2 / 2) (omega arith),
        low_bit (byte / 2 ^ 1) (byte / 2) (omega arith),
        low_bit (byte / 2 ^ 0) byte (omega arith),
      )
      refl

take_bits-shifted :
    (table : List (ℕ × ℕ)) (room byte b : ℕ) (w : Walk)
    → take_bits table room byte b w ≡ walk table room (shifted_bits byte b) w
unfolding take_bits shifted_bits walk
take_bits-shifted table room byte zero w = refl
take_bits-shifted table room byte (suc b) w =
    ap (λ f. take_bit table room w (bit_and (byte / 2 ^ b) 1) >>= f)
      (λ i next. take_bits-shifted table room byte b next i)

take_bits-walk :
    (table : List (ℕ × ℕ)) (room byte : ℕ) (w : Walk)
    → take_bits table room byte 8 w ≡ walk table room (code_bits byte 8) w
take_bits-walk table room byte w =
    take_bits-shifted table room byte 8 w ∙ ap (λ l. walk table room l w) (shifted_bits-code byte)

-- The decoder's loops are one loop over the bits.
pub take_bytes-walk :
    (table : List (ℕ × ℕ)) (room : ℕ) (src : List ℕ) (w : Walk)
    → take_bytes table room src w ≡ walk table room (bits_of src) w
unfolding take_bytes bits_of
take_bytes-walk table room [] w = unfold walk in refl
take_bytes-walk table room (byte ∷ src) w =
    rw (take_bits-walk table room byte w, walk-append table room (code_bits byte 8) (bits_of src) w)
      (ap (λ f. walk table room (code_bits byte 8) w >>= f)
        (λ i next. take_bytes-walk table room src next i))
