-- ===== src/Http/Block/RoundTrip.antt =====
-- A header that is written is sunk by the decoder, and the block goes on behind it.
use wave.Common.{
  ℕ, suc, ◌+◌, ◌≤◌, ◌<◌, ◌≡◌, ◌∙◌, refl, ap, sym, arith, some, List, [], ◌∷◌, ◌++◌, length, drop,
  bit_and, length-append, append_assoc, drop-append, take-append, drop-drop, length-drop,
}
use mathlib.Core.Path.{subst}
use wave.Common.Bits.{bit_and-pow, bit_and-le}
use wave.Common.Bytes.{IsU32}
use wave.Http.Integer.{encode_string}
use wave.Http.Integer.Strings.{IsField, decode_string-encode}
use wave.Http.Block.Table.{Name, Value}
use wave.Http.Block.{plain, decode_literal, decode_one, decode_block, encode_name, encode_header}
use wave.Http.Block.Names.{IsName, Named, encode_name-Named}

-- A representation that starts below 16 is a literal without indexing.
pub decode_one-literal :
    (usize_max b : ℕ) (buf : List ℕ)
    → b < 16
    → decode_one usize_max b buf ≡ decode_literal usize_max buf 4
unfolding decode_one
decode_one-literal usize_max b buf h =
    let low : bit_and b 0x80 ≡ 0 = bit_and-pow 7 b ∙ omega arith in
    rw low (ground (arith, bit_and-le b 0xc0, bit_and-le b 0xe0))

-- A field behind a name.
decode_literal-fields :
    (usize_max : ℕ) (nb vb rest name value : List ℕ)
    → IsName usize_max nb name
    → IsField usize_max vb value
    → length ((nb ++ vb) ++ rest) ≤ usize_max
    → decode_literal usize_max ((nb ++ vb) ++ rest) 4 ≡ some (length (nb ++ vb), (name, value) ∷ [])
unfolding decode_literal IsName IsField
decode_literal-fields usize_max nb vb rest name value (b, tail, eb, hb, named) (off, whole, read)
      fits =
    let fits' : length (nb ++ (vb ++ rest)) ≤ usize_max =
      subst (λ (l : List ℕ). length l ≤ usize_max) (append_assoc nb vb rest) fits in
    let (found, same) = read rest (omega (arith, length-append nb (vb ++ rest))) in
    rw (append_assoc nb vb rest, named (vb ++ rest) fits')
      (rw (drop-append nb (vb ++ rest))
        (rw (found, same) (unfold plain in rw (length-append nb vb) refl)))

encode_header-parts :
    (dst nb vb name value : List ℕ)
    → encode_name dst name ≡ some (length nb, nb ++ drop (length nb) dst)
    → encode_string (drop (length nb) dst) value
      ≡ some (length vb, vb ++ drop (length vb) (drop (length nb) dst))
    → encode_header dst name value
      ≡ some (length (nb ++ vb), (nb ++ vb) ++ drop (length (nb ++ vb)) dst)
unfolding encode_header
encode_header-parts dst nb vb name value e f = rw e (
    rw (drop-append nb (drop (length nb) dst), take-append nb (drop (length nb) dst), f)
      (rw
        (
          length-append nb vb,
          drop-drop (length vb) (length nb) dst,
          append_assoc nb vb (drop (length nb + length vb) dst),
        )
        refl))

pub decode_block-step :
    (usize_max b fuel n : ℕ) (buf : List ℕ) (headers : List (Name × Value))
    → decode_one usize_max b (b ∷ buf) ≡ some (n, headers)
    → decode_block usize_max (suc fuel) (b ∷ buf) ≡ (
      headers ++ (decode_block usize_max fuel (drop n (b ∷ buf))).0,
      (decode_block usize_max fuel (drop n (b ∷ buf))).1,
    )
unfolding decode_block
decode_block-step usize_max b fuel n buf headers e = rw (e, decode_block) refl

sunk :
    (usize_max : ℕ) (nb vb rest name value : List ℕ) (fuel : ℕ)
    → IsName usize_max nb name
    → IsField usize_max vb value
    → length ((nb ++ vb) ++ rest) ≤ usize_max
    → decode_block usize_max (suc fuel) ((nb ++ vb) ++ rest)
      ≡ ((name, value) ∷ (decode_block usize_max fuel rest).0, (decode_block usize_max fuel rest).1)
unfolding IsName
sunk usize_max nb vb rest name value fuel (b, tail, eb, hb, named) field fits =
    let literal =
      decode_literal-fields usize_max nb vb rest name value (b, tail, eb, hb, named) field fits in
    let front : (nb ++ vb) ++ rest ≡ b ∷ ((tail ++ vb) ++ rest) = ap (λ l. (l ++ vb) ++ rest) eb in
    let one : decode_one usize_max b (b ∷ ((tail ++ vb) ++ rest))
        ≡ some (length (nb ++ vb), (name, value) ∷ []) =
      decode_one-literal usize_max b (b ∷ ((tail ++ vb) ++ rest)) hb
      ∙ ap (λ l. decode_literal usize_max l 4) (sym front)
      ∙ literal in
    let behind : drop (length (nb ++ vb)) (b ∷ ((tail ++ vb) ++ rest)) ≡ rest =
      ap (drop (length (nb ++ vb))) (sym front) ∙ drop-append (nb ++ vb) rest in
    ap (decode_block usize_max (suc fuel)) front
    ∙ decode_block-step usize_max b fuel (length (nb ++ vb)) ((tail ++ vb) ++ rest) _ one
    ∙ rw behind refl

-- A header of a name and a value below 2^32 bytes is written to every buffer with 13 bytes to spare, and at
-- the front of any block that the target can address, with these 13 bytes to spare, the decoder sinks
-- exactly it and goes on behind its bytes.
pub decode_block-encode :
    (usize_max : ℕ) (dst name value rest : List ℕ) (fuel : ℕ)
    → IsU32 (length name)
    → IsU32 (length value)
    → 13 + length name + length value ≤ length dst
    → 13 + length name + length value + length rest ≤ usize_max
    → (bytes : List ℕ) × (encode_header dst name value
        ≡ some (length bytes, bytes ++ drop (length bytes) dst))
      × (decode_block usize_max (suc fuel) (bytes ++ rest) ≡ (
        (name, value) ∷ (decode_block usize_max fuel rest).0,
        (decode_block usize_max fuel rest).1,
      ))
unfolding Named
decode_block-encode usize_max dst name value rest fuel hn hv room fits =
    let (nb, is_name, short, en) = encode_name-Named usize_max dst name hn (omega arith) in
    let (vb, is_field, short_value, ev) =
      decode_string-encode usize_max (drop (length nb) dst) value hv
        (omega (arith, length-drop (length nb) dst)) in
    (
      nb ++ vb,
      encode_header-parts dst nb vb name value en ev,
      sunk usize_max nb vb rest name value fuel is_name is_field
          (omega (arith, length-append (nb ++ vb) rest, length-append nb vb)),
    )
