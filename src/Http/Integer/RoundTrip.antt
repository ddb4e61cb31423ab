-- ===== src/Http/Integer/RoundTrip.antt =====
-- What an HPACK encoder writes, its decoder reads back.
use wave.Common.{
  ℕ, zero, suc, ◌+◌, ◌-◌, ◌*◌, ◌/◌, ◌%◌, ◌^◌, ◌≤◌, ◌<◌, ◌≡◌, ◌⊎◌, inl, inr, ◌∙◌, refl, ap, arith,
  some, >>=-eq-some, List, [], ◌∷◌, Bool-cases, ltb, leb, bit_and, bit_or,
}
use wave.Common.Bits.{bit_and-mask, bit_and-pow, bit_or-pow, bit_or_disjoint, pow-pos}
use native.Mathlib.Nat.{
  add-mul, mul_assoc, mul_comm, pow-suc, pow-le-pow_right, mul-add-mod_self_right, mod-eq_of_lt,
}
use wave.Common.Bytes.{IsU32, u8}
use wave.Http.Integer.{decode_rest, decode_integer, encode_rest, encode_integer}

-- A byte without the high bit, and a byte with it, which holds `chunk`.
pub last_byte : (chunk : ℕ) → chunk < 128 → (bit_and chunk 0x7f ≡ chunk) × (bit_and chunk 0x80 ≡ 0)
last_byte chunk h = (bit_and-mask 7 chunk ∙ omega arith, bit_and-pow 7 chunk ∙ omega arith)

pub continued :
    (rem : ℕ)
    → (bit_and (bit_or (u8 (bit_and rem 0x7f)) 0x80) 0x7f ≡ rem % 128)
      × (bit_and (bit_or (u8 (bit_and rem 0x7f)) 0x80) 0x80 ≡ 128)
continued rem =
    rw (byte) (
      bit_and-mask 7 (rem % 128 + 128) ∙ omega arith,
      bit_and-pow 7 (rem % 128 + 128) ∙ omega arith,
    )
  where
    byte : bit_or (u8 (bit_and rem 0x7f)) 0x80 ≡ rem % 128 + 128
    byte = rw (bit_and-mask 7 rem) (bit_or-pow 7 (rem % 128 % 256) (omega arith) ∙ omega arith)

-- One chunk and what is left of the number.
pub chunk_split : (rem P : ℕ) → rem * P ≡ rem % 128 * P + rem / 128 * (P * 128)
chunk_split rem P =
    let e : rem ≡ rem % 128 + rem / 128 * 128 = omega arith in
    ap (λ (t : ℕ). t * P) e
    ∙ add-mul (rem % 128) (rem / 128 * 128) P
    ∙ ap (λ (t : ℕ). rem % 128 * P + t)
        (mul_assoc (rem / 128) 128 P ∙ ap (λ (t : ℕ). rem / 128 * t) (mul_comm 128 P))

step_last :
    (c : ℕ) (buf : List ℕ) (value shift i : ℕ)
    → c < 128
    → shift < 32
    → value + c * 2 ^ shift < 2 ^ 32
    → decode_rest (c ∷ buf) value shift i ≡ some (value + c * 2 ^ shift, i + 1)
unfolding decode_rest
step_last c buf value shift i hc hs hv =
    let (low, high) = last_byte c hc in
    let fits : c * 2 ^ shift % 2 ^ 32 ≡ c * 2 ^ shift = omega arith in
    rw (low, high) (rw fits (ground arith))

step_more :
    (rem : ℕ) (buf : List ℕ) (value shift i : ℕ)
    → shift < 32
    → value + rem % 128 * 2 ^ shift < 2 ^ 32
    → i < 5
    → decode_rest (bit_or (u8 (bit_and rem 0x7f)) 0x80 ∷ buf) value shift i
      ≡ decode_rest buf (value + rem % 128 * 2 ^ shift) (shift + 7) (i + 1)
unfolding decode_rest
step_more rem buf value shift i hs hv hi =
    let (low, high) = continued rem in
    let fits : rem % 128 * 2 ^ shift % 2 ^ 32 ≡ rem % 128 * 2 ^ shift = omega arith in
    rw (low, high) (rw fits (ground arith))

pow-add : (k d : ℕ) → 2 ^ (k + d) ≡ 2 ^ k * 2 ^ d
pow-add k zero = let e : k + 0 ≡ k = omega arith in rw e (omega arith)
pow-add k (suc d) =
    let e : k + suc d ≡ suc (k + d) = omega arith in
    rw (e, pow-suc 2 (k + d), pow-suc 2 d, pow-add k d) (mul_assoc (2 ^ k) (2 ^ d) 2)

-- The next weight.
pub next_weight : (i : ℕ) → 2 ^ (7 * suc i) ≡ 2 ^ (7 * i) * 128
next_weight i =
    let e : 7 * suc i ≡ 7 * i + 7 = omega arith in ap (λ (t : ℕ). 2 ^ t) e ∙ pow-add (7 * i) 7

not_fifth : (rem i : ℕ) → i < 5 → 128 ≤ rem → rem * 2 ^ (7 * i) < 2 ^ 32 → i < 4
not_fifth rem i h more small = ground arith

pub encode_rest-cases :
    (x : ℕ) (dst : List ℕ) (rem n : ℕ) (written : List ℕ)
    → encode_rest (x ∷ dst) rem ≡ some (n, written)
    → ((rem < 128) × (n ≡ 1) × (written ≡ rem ∷ dst))
      ⊎ ((128 ≤ rem)
          × (m : ℕ) × (later : List ℕ) × (encode_rest dst (rem / 128) ≡ some (m, later))
          × (n ≡ m + 1)
          × (written ≡ bit_or (u8 (bit_and rem 0x7f)) 0x80 ∷ later))
unfolding encode_rest
encode_rest-cases x dst rem n written e = elim (Bool-cases (leb 128 rem)) [
  | inr last ↦ let f = rw last at e in inl (ground arith, ground arith, ground arith)
  | inl more ↦
      let ((m, later), em, ew) = >>=-eq-some (encode_rest dst (rem / 2 ^ 7)) _ (rw more at e) in
      inr (ground arith, m, later, em, ground arith, ground arith)
]

no_room : (rem : ℕ) {r : ℕ × List ℕ} → encode_rest [] rem ≡ some r → ⊥
unfolding encode_rest
no_room rem e = cc

-- The loop behind `i` bytes reads what the encoder's loop wrote.
decode_rest-encode :
    (dst : List ℕ) (rem value i n : ℕ) (written : List ℕ)
    → i < 5
    → value + rem * 2 ^ (7 * i) < 2 ^ 32
    → encode_rest dst rem ≡ some (n, written)
    → decode_rest written value (7 * i) (i + 1) ≡ some (value + rem * 2 ^ (7 * i), i + 1 + n)
decode_rest-encode [] rem value i n written hi hv e = absurd (no_room rem e)
decode_rest-encode (x ∷ dst) rem value i n written hi hv e =
    elim (encode_rest-cases x dst rem n written e) [
      | inl (small, en, ew) ↦
          rw (en, ew) (step_last rem dst value (7 * i) (i + 1) small (omega arith) hv)
      | inr (more, m, later, em, en, ew) ↦
          let weight = chunk_split rem (2 ^ (7 * i)) in
          let whole : value + rem % 128 * 2 ^ (7 * i) + rem / 128 * 2 ^ (7 * suc i)
              ≡ value + rem * 2 ^ (7 * i) =
            omega (arith, weight, ap (λ (t : ℕ). rem / 128 * t) (next_weight i)) in
          let shift : 7 * i + 7 ≡ 7 * suc i = omega arith in
          let later_at : i + 1 + 1 ≡ suc i + 1 = omega arith in
          let count : suc i + 1 + m ≡ i + 1 + (m + 1) = omega arith in
          let four = not_fifth rem i hi more (omega arith) in
          rw (en, ew)
            (step_more rem later value (7 * i) (i + 1) (omega arith) (omega (arith, weight))
                (omega arith)
              ∙ rw (shift, later_at)
                  (decode_rest-encode dst (rem / 128) (value + rem % 128 * 2 ^ (7 * i)) (suc i) m
                      later (omega arith) (omega (arith, whole)) em
                    ∙ rw (whole, count) refl))
    ]

-- The first byte holds its prefix.
pub first_byte :
    (k high v : ℕ) → k ≤ 8 → v < 2 ^ k → bit_and (bit_or (high * 2 ^ k) (u8 v)) (2 ^ k - 1) ≡ v
first_byte k high v le h =
    let top : 2 ^ k ≤ 2 ^ 8 = pow-le-pow_right (omega arith) le in
    let byte : u8 v ≡ v = omega arith in
    rw (byte, bit_or_disjoint k high v h)
      (bit_and-mask k (high * 2 ^ k + v) ∙ mul-add-mod_self_right high (2 ^ k) v ∙ mod-eq_of_lt h)

decode_integer-small :
    (b v k : ℕ) (buf : List ℕ)
    → bit_and b (2 ^ k - 1) ≡ v
    → v < 2 ^ k - 1
    → decode_integer (b ∷ buf) k ≡ some (v, 1)
unfolding decode_integer
decode_integer-small b v k buf e h = rw e (ground arith)

decode_integer-long :
    (b k : ℕ) (buf : List ℕ)
    → bit_and b (2 ^ k - 1) ≡ 2 ^ k - 1
    → decode_integer (b ∷ buf) k ≡ decode_rest buf (2 ^ k - 1) 0 1
unfolding decode_integer
decode_integer-long b k buf e = rw e (ground arith)

pub encode_integer-cases :
    (x : ℕ) (dst : List ℕ) (prefix k value n : ℕ) (written : List ℕ)
    → encode_integer (x ∷ dst) prefix k value ≡ some (n, written)
    → ((value < 2 ^ k - 1) × (n ≡ 1) × (written ≡ bit_or prefix (u8 value) ∷ dst))
      ⊎ ((2 ^ k - 1 ≤ value)
          × (m : ℕ) × (later : List ℕ) × (encode_rest dst (value - (2 ^ k - 1)) ≡ some (m, later))
          × (n ≡ m + 1)
          × (written ≡ bit_or prefix (u8 (2 ^ k - 1)) ∷ later))
unfolding encode_integer
encode_integer-cases x dst prefix k value n written e = elim (Bool-cases (ltb value (2 ^ k - 1))) [
  | inl small ↦ let f = rw small at e in inl (ground arith, ground arith, ground arith)
  | inr large ↦
      let ((m, later), em, ew) =
        >>=-eq-some (encode_rest dst (value - (2 ^ k - 1))) _ (rw large at e) in
      inr (ground arith, m, later, em, ground arith, ground arith)
]

one_more : (m : ℕ) → 1 + m ≡ m + 1
one_more m = omega arith

no_bytes : (prefix k value : ℕ) {r : ℕ × List ℕ} → encode_integer [] prefix k value ≡ some r → ⊥
unfolding encode_integer
no_bytes prefix k value e = cc

-- An integer below 2^32 is read back, with the count of bytes it took, from the bytes written
-- for it behind any type bits above its prefix.
pub decode_integer-encode :
    (dst : List ℕ) (high k value n : ℕ) (written : List ℕ)
    → k ≤ 8
    → IsU32 value
    → encode_integer dst (high * 2 ^ k) k value ≡ some (n, written)
    → decode_integer written k ≡ some (value, n)
decode_integer-encode [] high k value n written le h e = absurd (no_bytes (high * 2 ^ k) k value e)
decode_integer-encode (x ∷ dst) high k value n written le h e =
    elim (encode_integer-cases x dst (high * 2 ^ k) k value n written e) [
      | inl (small, en, ew) ↦
          rw (en, ew)
            (decode_integer-small _ value k dst (first_byte k high value le (omega arith)) small)
      | inr (large, m, later, em, en, ew) ↦
          let back : 2 ^ k - 1 + (value - (2 ^ k - 1)) * 1 ≡ value = omega arith in
          rw (en, ew)
            (decode_integer-long _ k later
                (first_byte k high (2 ^ k - 1) le (omega (arith, pow-pos k)))
              ∙ decode_rest-encode dst (value - (2 ^ k - 1)) (2 ^ k - 1) 0 m later (omega arith)
                  (omega arith) em
              ∙ rw (back, one_more m) refl)
    ]
