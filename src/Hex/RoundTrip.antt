-- ===== src/Hex/RoundTrip.antt =====
-- Encoded bytes are decoded back.
use wave.Common.{
  ℕ, zero, suc, ◌+◌, ◌*◌, ◌/◌, ◌%◌, ◌^◌, ◌≤◌, ◌<◌, ◌≡◌, refl, ap, sym, ◌∙◌, arith, some, List, [],
  ◌∷◌, ◌++◌, bit_and, bit_or, length, get_or, set, drop, All, length-append, append_assoc,
  append-nil,
}
use wave.Common.Bits.{bit_and-mask, bit_or_disjoint}
use wave.Common.Bytes.{IsByte}
use wave.Hex.{nibble, digits, decode_loop, decode, encode_loop, encode}

-- The digits of the bytes, in lower case.
abbrev pub spelling : List ℕ → List ℕ
spelling [] = []
spelling (b ∷ bytes) = get_or digits (b / 16) 0 ∷ get_or digits (b % 16) 0 ∷ spelling bytes

nibble-digit : (d : ℕ) → d < 16 → nibble (get_or digits d 0) ≡ some d
unfolding nibble
nibble-digit d h = ground arith

joined : (b : ℕ) → IsByte b → bit_or (b / 16 * 2 ^ 4 % 256) (b % 16) ≡ b
joined b h =
    let e : b / 16 * 2 ^ 4 % 256 ≡ b / 16 * 2 ^ 4 = omega arith in
    rw e (bit_or_disjoint 4 (b / 16) (b % 16) (omega arith) ∙ omega arith)

set-append {ℓ} :
    {A : Type ℓ} (pre rest : List A) (x v : A) (i : ℕ)
    → i ≡ length pre
    → set (pre ++ x ∷ rest) i v ≡ (pre ++ v ∷ []) ++ rest
set-append [] rest x v i e = rw e refl
set-append (p ∷ pre) rest x v zero e = absurd (omega arith)
set-append (p ∷ pre) rest x v (suc i) e = ap (λ t. p ∷ t) (set-append pre rest x v i (omega arith))

encode_loop_lem :
    (bytes pre out : List ℕ) (i : ℕ)
    → 2 * i ≡ length pre
    → length bytes * 2 ≤ length out
    → encode_loop bytes i (pre ++ out) ≡ (pre ++ spelling bytes) ++ drop (length bytes * 2) out
unfolding encode_loop
encode_loop_lem [] pre out i e h = rw append-nil refl
encode_loop_lem (b ∷ bytes) pre [] i e h = absurd (omega arith)
encode_loop_lem (b ∷ bytes) pre (x ∷ []) i e h = absurd (omega arith)
encode_loop_lem (b ∷ bytes) pre (x ∷ y ∷ out) i e h =
    let hi = get_or digits (b / 2 ^ 4) 0 in
    let lo = get_or digits (b % 16) 0 in
    let low : bit_and b 0x0f ≡ b % 16 = bit_and-mask 4 b in
    let two : length (b ∷ bytes) * 2 ≡ suc (suc (length bytes * 2)) = omega arith in
    let grown : length ((pre ++ hi ∷ []) ++ lo ∷ []) ≡ 2 * (i + 1) =
      omega (arith, length-append (pre ++ hi ∷ []) (lo ∷ []), length-append pre (hi ∷ [])) in
    rw (low, set-append pre (y ∷ out) x hi (2 * i) e)
      (rw
        (set-append (pre ++ hi ∷ []) out y lo (2 * i + 1)
          (omega (arith, length-append pre (hi ∷ []))))
        (encode_loop_lem bytes ((pre ++ hi ∷ []) ++ lo ∷ []) out (i + 1) (sym grown) (omega arith)
          ∙ rw two (simp append_assoc refl)))

decode_loop_lem :
    (bytes pre out : List ℕ) (i : ℕ)
    → i ≡ length pre
    → All IsByte bytes
    → length bytes ≤ length out
    → decode_loop (spelling bytes) i (pre ++ out) ≡ some ((pre ++ bytes) ++ drop (length bytes) out)
unfolding decode_loop
decode_loop_lem [] pre out i e bs h = rw append-nil refl
decode_loop_lem (b ∷ bytes) pre [] i e bs h = absurd (omega arith)
decode_loop_lem (b ∷ bytes) pre (x ∷ out) i e (hb, bs) h =
    let grown : length (pre ++ b ∷ []) ≡ i + 1 = omega (arith, length-append pre (b ∷ [])) in
    rw (nibble-digit (b / 16) (omega arith), nibble-digit (b % 16) (omega arith), joined b hb)
      (rw (set-append pre out x b i e) (
        decode_loop_lem bytes (pre ++ b ∷ []) out (i + 1) (sym grown) bs (omega arith)
        ∙ simp append_assoc refl))

length-spelling : (bytes : List ℕ) → length (spelling bytes) ≡ 2 * length bytes
length-spelling [] = refl
length-spelling (b ∷ bytes) = omega (arith, length-spelling bytes)

-- Bytes that `hex_encode` has room for are spelled with two lower-case digits each, high digit first,
-- and what is behind them in the buffer is kept.
pub encode-spelling :
    (bytes out : List ℕ)
    → length bytes * 2 ≤ length out
    → encode bytes out ≡ some (length bytes * 2, spelling bytes ++ drop (length bytes * 2) out)
unfolding encode
encode-spelling bytes out h = rw (encode_loop_lem bytes [] out 0 refl h) (ground arith)

-- The spelling of bytes is decoded to these bytes by a `hex_decode` that has room for them, and what is
-- behind them in the buffer is kept.
decode-spelling :
    (bytes out : List ℕ)
    → All IsByte bytes
    → length bytes ≤ length out
    → decode (spelling bytes) out ≡ some (length bytes, bytes ++ drop (length bytes) out)
unfolding decode
decode-spelling bytes out bs h =
    let half : length (spelling bytes) / 2 ≡ length bytes = omega (arith, length-spelling bytes) in
    let even : length (spelling bytes) % 2 ≡ 0 = omega (arith, length-spelling bytes) in
    rw (half, even, decode_loop_lem bytes [] out 0 refl bs h) (ground arith)
