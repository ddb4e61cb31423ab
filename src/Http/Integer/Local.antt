-- ===== src/Http/Integer/Local.antt =====
-- The HPACK integer decoder stays inside its buffer, and reads only the bytes it reports.
use wave.Common.{
  ℕ, suc, ◌+◌, ◌-◌, ◌*◌, ◌%◌, ◌^◌, ◌≤◌, ◌<◌, ◌≡◌, ◌⊎◌, ◌≢◌, Bool-cases, inl, inr, ◌∙◌, refl, ap,
  arith, Option, some, List, [], ◌∷◌, ◌++◌, ltb, length, take, bit_and,
}
use native.Mathlib.Nat.{pow-le-pow_right}
use wave.Http.Integer.{decode_rest, decode_integer}

-- The value with one more chunk.
abbrev next_value : ℕ → ℕ → ℕ → ℕ
next_value b value shift = value + bit_and b 0x7f * 2 ^ shift % 2 ^ 32

-- One step of the loop that succeeds.
decode_rest-step :
    (b : ℕ) (buf : List ℕ) (value shift i v n : ℕ)
    → decode_rest (b ∷ buf) value shift i ≡ some (v, n)
    → (shift < 32)
      × (next_value b value shift < 2 ^ 32)
      × (((bit_and b 0x80 ≡ 0) × (v ≡ next_value b value shift) × (n ≡ i + 1))
          ⊎ ((bit_and b 0x80 ≢ 0)
              × (i < 5)
              × (decode_rest buf (next_value b value shift) (shift + 7) (i + 1) ≡ some (v, n))))
unfolding decode_rest
decode_rest-step b buf value shift i v n e = ground arith

decode_rest-stop :
    (b : ℕ) (buf : List ℕ) (value shift i : ℕ)
    → shift < 32
    → next_value b value shift < 2 ^ 32
    → bit_and b 0x80 ≡ 0
    → decode_rest (b ∷ buf) value shift i ≡ some (next_value b value shift, i + 1)
unfolding decode_rest
decode_rest-stop b buf value shift i hs hv hb = ground arith

decode_rest-on :
    (b : ℕ) (buf : List ℕ) (value shift i : ℕ)
    → shift < 32
    → next_value b value shift < 2 ^ 32
    → bit_and b 0x80 ≢ 0
    → i < 5
    → decode_rest (b ∷ buf) value shift i
      ≡ decode_rest buf (next_value b value shift) (shift + 7) (i + 1)
unfolding decode_rest
decode_rest-on b buf value shift i hs hv hb hi = ground arith

empty : (value shift i : ℕ) {r : ℕ × ℕ} → decode_rest [] value shift i ≡ some r → ⊥
unfolding decode_rest
empty value shift i e = cc

-- The result of a decoder that was given `buf` and had read `i` bytes before it.
abbrev Reads : (List ℕ → Option (ℕ × ℕ)) → List ℕ → ℕ → ℕ → ℕ → Type 0
Reads decode buf i v n =
    (m : ℕ) × (n ≡ i + m)
    × (1 ≤ m)
    × (m ≤ length buf)
    × (n ≤ 6)
    × (v < 2 ^ 32)
    × ((rest : List ℕ) → decode (take m buf ++ rest) ≡ some (v, n))

decode_rest-Reads :
    (buf : List ℕ) (value shift i v n : ℕ)
    → i ≤ 5
    → decode_rest buf value shift i ≡ some (v, n)
    → Reads (λ bytes. decode_rest bytes value shift i) buf i v n
decode_rest-Reads [] value shift i v n hi e = absurd (empty value shift i e)
decode_rest-Reads (b ∷ buf) value shift i v n hi e =
    let (hs, hv, cases) = decode_rest-step b buf value shift i v n e in
    elim cases [
      | inl (hb, ev, en) ↦ (
        1,
        en,
        omega arith,
        omega arith,
        omega arith,
        omega arith,
        λ rest. decode_rest-stop b rest value shift i hs hv hb ∙ rw (ev, en) refl,
      )
      | inr (hb, small, later) ↦
          let (m, em, pos, inside, six, word, local) =
            decode_rest-Reads buf (next_value b value shift) (shift + 7) (i + 1) v n (omega arith)
              later in
          (
            suc m,
            omega arith,
            omega arith,
            omega arith,
            six,
            word,
            λ rest. decode_rest-on b (take m buf ++ rest) value shift i hs hv hb small ∙ local rest,
          )
    ]

local_byte :
    (b : ℕ) (buf rest : List ℕ) (m k v n : ℕ)
    → n ≡ suc m
    → decode_integer (b ∷ (take m buf ++ rest)) k ≡ some (v, n)
    → decode_integer (take n (b ∷ buf) ++ rest) k ≡ some (v, n)
local_byte b buf rest m k v n en e =
    ap (λ (t : ℕ). decode_integer (take t (b ∷ buf) ++ rest) k) en ∙ e

-- An integer decoded with a prefix of at most 8 bits is below 2^32, its 1 to 6 bytes lie inside
-- the buffer, and the bytes behind them do not matter.
pub decode_integer-IsLocal :
    (buf : List ℕ) (k v n : ℕ)
    → k ≤ 8
    → decode_integer buf k ≡ some (v, n)
    → (1 ≤ n)
      × (n ≤ length buf)
      × (n ≤ 6)
      × (v < 2 ^ 32)
      × ((rest : List ℕ) → decode_integer (take n buf ++ rest) k ≡ some (v, n))
unfolding decode_integer
decode_integer-IsLocal [] k v n le e = cc
decode_integer-IsLocal (b ∷ buf) k v n le e =
    elim (Bool-cases (ltb (bit_and b (2 ^ k - 1)) (2 ^ k - 1))) [
      | inl short ↦
          let en : n ≡ 1 = ground arith in
          let top : 2 ^ k ≤ 2 ^ 8 = pow-le-pow_right (omega arith) le in
          (
            omega arith,
            omega arith,
            omega arith,
            ground arith,
            λ rest. local_byte b buf rest 0 k v n en (ground arith),
          )
      | inr long ↦
          let (m, em, pos, inside, six, word, local) =
            decode_rest-Reads buf (2 ^ k - 1) 0 1 v n (omega arith) (rw long at e) in
          let en : n ≡ suc m = omega arith in
          (
            omega arith,
            omega arith,
            six,
            word,
            λ rest. local_byte b buf rest m k v n en (rw long (local rest)),
          )
    ]
