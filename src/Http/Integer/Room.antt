-- ===== src/Http/Integer/Room.antt =====
-- Room that is enough for the encoder.
use wave.Common.{
  ℕ, zero, suc, ◌+◌, ◌-◌, ◌*◌, ◌/◌, ◌^◌, ◌≤◌, ◌<◌, ◌≡◌, inl, inr, ◌∙◌, refl, ap, arith, Option,
  some, List, [], ◌∷◌, Bool-cases, ltb, leb, length, drop, bit_and, bit_or,
}
use wave.Common.Bytes.{IsU32, u8}
use wave.Http.Integer.RoundTrip.{next_weight, decode_integer-encode}
use wave.Http.Integer.{decode_integer, encode_rest, encode_integer}

encode_rest-small :
    (x : ℕ) (dst : List ℕ) (rem : ℕ) → rem < 128 → encode_rest (x ∷ dst) rem ≡ some (1, rem ∷ dst)
unfolding encode_rest
encode_rest-small x dst rem h = let e : u8 rem ≡ rem = omega arith in rw e (ground arith)

encode_rest-more :
    (x : ℕ) (dst : List ℕ) (rem m : ℕ) (later : List ℕ)
    → 128 ≤ rem
    → encode_rest dst (rem / 128) ≡ some (m, later)
    → encode_rest (x ∷ dst) rem ≡ some (m + 1, bit_or (u8 (bit_and rem 0x7f)) 0x80 ∷ later)
unfolding encode_rest
encode_rest-more x dst rem m later h e = rw e (ground arith)

-- What a successful write into a buffer does: at most `most` bytes change, at its front.
abbrev pub Fits : Option (ℕ × List ℕ) → List ℕ → ℕ → Type 0
Fits result dst most =
    (n : ℕ) × (written : List ℕ) × (result ≡ some (n, written))
    × (n ≤ most)
    × (drop n written ≡ drop n dst)
    × (length written ≡ length dst)

small-Fits :
    (most x : ℕ) (dst : List ℕ) (rem : ℕ)
    → 1 ≤ most
    → rem < 128
    → Fits (encode_rest (x ∷ dst) rem) (x ∷ dst) most
small-Fits most x dst rem h small = (1, rem ∷ dst, encode_rest-small x dst rem small, h, refl, refl)

-- Room for the continuation bytes.
encode_rest-Fits :
    (j : ℕ) (dst : List ℕ) (rem : ℕ)
    → rem < 2 ^ (7 * suc j)
    → suc j ≤ length dst
    → Fits (encode_rest dst rem) dst (suc j)
encode_rest-Fits j [] rem h room = absurd (omega arith)
encode_rest-Fits zero (x ∷ dst) rem h room = small-Fits 1 x dst rem (omega arith) h
encode_rest-Fits (suc j) (x ∷ dst) rem h room = elim (Bool-cases (leb 128 rem)) [
  | inr small ↦ small-Fits (suc (suc j)) x dst rem (omega arith) (ground arith)
  | inl more ↦
      let (m, later, e, le, kept, len) =
        encode_rest-Fits j dst (rem / 128) (omega (arith, next_weight (suc j))) (omega arith) in
      let next : m + 1 ≡ suc m = omega arith in
      (
        suc m,
        bit_or (u8 (bit_and rem 0x7f)) 0x80 ∷ later,
        encode_rest-more x dst rem m later (ground arith) e ∙ rw next refl,
        omega arith,
        kept,
        ap suc len,
      )
]

-- Six bytes are enough for every integer below 2^32.
pub encode_integer-Fits :
    (dst : List ℕ) (prefix k value : ℕ)
    → IsU32 value
    → 6 ≤ length dst
    → Fits (encode_integer dst prefix k value) dst 6
unfolding encode_integer
encode_integer-Fits [] prefix k value h room = absurd (omega arith)
encode_integer-Fits (x ∷ dst) prefix k value h room = elim (Bool-cases (ltb value (2 ^ k - 1))) [
  | inl small ↦ (1, bit_or prefix (u8 value) ∷ dst, ground arith, omega arith, refl, refl)
  | inr large ↦
      let (m, later, e, le, kept, len) =
        encode_rest-Fits 4 dst (value - (2 ^ k - 1)) (omega arith) (omega arith) in
      let next : m + 1 ≡ suc m = omega arith in
      (
        suc m,
        bit_or prefix (u8 (2 ^ k - 1)) ∷ later,
        rw (large, e, next) refl,
        omega arith,
        kept,
        ap suc len,
      )
]

-- An integer below 2^32 is written behind any type bits above its prefix of at most 8 bits to every buffer
-- of 6 bytes or more: it takes at most 6 bytes, is read back with their count, and what is behind them is
-- kept.
pub decode-encode_integer :
    (dst : List ℕ) (high k value : ℕ)
    → k ≤ 8
    → IsU32 value
    → 6 ≤ length dst
    → (n : ℕ) × (written : List ℕ) × (encode_integer dst (high * 2 ^ k) k value ≡ some (n, written))
      × (decode_integer written k ≡ some (value, n))
      × (n ≤ 6)
      × (drop n written ≡ drop n dst)
decode-encode_integer dst high k value le h room =
    let (n, written, e, six, kept, len) = encode_integer-Fits dst (high * 2 ^ k) k value h room in
    (n, written, e, decode_integer-encode dst high k value n written le h e, six, kept)
