-- ===== src/Http/Huffman/Complete.antt =====
-- Every Huffman string decodes to what it stands for.
use wave.Common.{
  ℕ, zero, suc, ◌+◌, ◌-◌, ◌*◌, ◌/◌, ◌%◌, ◌^◌, ◌≤◌, ◌<◌, ◌≡◌, ◌∙◌, refl, ap, arith, true, none, some,
  List, [], ◌∷◌, ◌++◌, length, bit_or, All, append_assoc, append-nil, length-append,
}
use native.Mathlib.Nat.{pow-suc, pow-le-pow_right}
use wave.Common.Bits.{bit_or_disjoint, pow-pos}
use wave.Common.Bytes.{IsByte}
use wave.Http.Huffman.Table.{huff}
use wave.Http.Huffman.{find_symbol, take_bit, Walk, on_symbol, finish, huffman_decode}
use wave.Http.Huffman.Spec.{
  code_bits, symbol_bits, string_bits, bits_of, walk, walk-append, take_bytes-walk,
}
use wave.Http.Huffman.Prefix.{
  no_symbols, is_none, is_none-eq, &&_split, IsCode, huff-IsCode, ones_clear,
}

-- `(cur << 1) | bit`
pub append_bit :
    (cur bit : ℕ) → cur < 2 ^ 30 → bit < 2 → bit_or (cur * 2 % 2 ^ 32) bit ≡ cur * 2 + bit
append_bit cur bit h k =
    let fits : cur * 2 % 2 ^ 32 ≡ cur * 2 = omega arith in rw fits (bit_or_disjoint 1 cur bit k)

abbrev pub walk_at : ℕ → ℕ → List ℕ → Walk
walk_at cur nbits out = record { cur = cur; nbits = nbits; out = out }

-- A bit that completes no code.
take_bit-none :
    (table : List (ℕ × ℕ)) (room cur nbits bit : ℕ) (out : List ℕ)
    → cur < 2 ^ 30
    → bit < 2
    → nbits < 30
    → find_symbol table (cur * 2 + bit) (nbits + 1) 0 ≡ none
    → take_bit table room (walk_at cur nbits out) bit
      ≡ some (walk_at (cur * 2 + bit) (nbits + 1) out)
unfolding take_bit
take_bit-none table room cur nbits bit out hc hb hn e =
    rw (append_bit cur bit hc hb) (rw e (unfold on_symbol in ground arith))

take_bit-some :
    (table : List (ℕ × ℕ)) (room cur nbits bit symbol : ℕ) (out : List ℕ)
    → cur < 2 ^ 30
    → bit < 2
    → nbits < 30
    → symbol < 256
    → length out < room
    → find_symbol table (cur * 2 + bit) (nbits + 1) 0 ≡ some symbol
    → take_bit table room (walk_at cur nbits out) bit ≡ some (walk_at 0 0 (out ++ (symbol ∷ [])))
unfolding take_bit
take_bit-some table room cur nbits bit symbol out hc hb hn hs ho e = rw (append_bit cur bit hc hb) (
    rw e (
      let byte : symbol % 256 ≡ symbol = omega arith in unfold on_symbol in rw byte (ground arith)))

-- The bits of a number of which no prefix is a code.
walk_clear :
    (table : List (ℕ × ℕ)) (room code l : ℕ) (out : List ℕ)
    → code < 2 ^ l
    → l ≤ 30
    → no_symbols table code l ≡ true
    → walk table room (code_bits code l) (walk_at 0 0 out) ≡ some (walk_at code l out)
unfolding walk code_bits no_symbols
walk_clear table room code zero out h le clear =
    let none_left : 0 ≡ code = omega arith in ap (λ (t : ℕ). some (walk_at t 0 out)) none_left
walk_clear table room code (suc l) out h le clear =
    let (here, before) = &&_split (is_none (find_symbol table code (suc l) 0)) _ clear in
    let top : 2 ^ l ≤ 2 ^ 29 = pow-le-pow_right (omega arith) {i = l} {j = 29} (omega arith) in
    let half : code / 2 < 2 ^ l = omega (arith, pow-suc 2 l) in
    let whole : code / 2 * 2 + code % 2 ≡ code = omega arith in
    let next : l + 1 ≡ suc l = omega arith in
    let last : take_bit table room (walk_at (code / 2) l out) (code % 2)
        ≡ some (walk_at code (suc l) out) =
      take_bit-none table room (code / 2) l (code % 2) out (omega arith) (omega arith) (omega arith)
        (rw (whole, next) (is_none-eq (find_symbol table code (suc l) 0) here))
      ∙ rw (whole, next) refl in
    walk-append table room (code_bits (code / 2) l) (code % 2 ∷ []) (walk_at 0 0 out)
    ∙ rw (walk_clear table room (code / 2) l out half (omega arith) before, last) refl

walk_symbol :
    (table : List (ℕ × ℕ)) (room code len symbol : ℕ) (out : List ℕ)
    → IsCode table code len symbol
    → symbol < 256
    → length out < room
    → walk table room (code_bits code len) (walk_at 0 0 out)
      ≡ some (walk_at 0 0 (out ++ (symbol ∷ [])))
unfolding walk code_bits
walk_symbol table room code len symbol out (l, e, found, before, small, le) hs ho =
    let top : 2 ^ l ≤ 2 ^ 29 = pow-le-pow_right (omega arith) {i = l} {j = 29} (omega arith) in
    let small' : code < 2 ^ suc l = omega (arith, ap (λ (t : ℕ). 2 ^ t) e) in
    let half : code / 2 < 2 ^ l = omega (arith, pow-suc 2 l) in
    let whole : code / 2 * 2 + code % 2 ≡ code = omega arith in
    let next : l + 1 ≡ len = omega arith in
    let last : take_bit table room (walk_at (code / 2) l out) (code % 2)
        ≡ some (walk_at 0 0 (out ++ (symbol ∷ []))) =
      take_bit-some table room (code / 2) l (code % 2) symbol out (omega arith) (omega arith)
        (omega arith) hs ho (rw (whole, next) found) in
    ap (λ (t : ℕ). walk table room (code_bits code t) (walk_at 0 0 out)) e
    ∙ walk-append table room (code_bits (code / 2) l) (code % 2 ∷ []) (walk_at 0 0 out)
    ∙ rw (walk_clear table room (code / 2) l out half (omega arith) before, last) refl

walk_string :
    (room : ℕ) (s out : List ℕ)
    → All IsByte s
    → length out + length s ≤ room
    → walk huff room (string_bits huff s) (walk_at 0 0 out) ≡ some (walk_at 0 0 (out ++ s))
unfolding string_bits symbol_bits
walk_string room [] out hs ho = unfold walk in rw (append-nil out) refl
walk_string room (symbol ∷ s) out (hb, hs) ho =
    walk-append huff room (symbol_bits huff symbol) (string_bits huff s) (walk_at 0 0 out)
    ∙ rw (walk_symbol huff room _ _ symbol out (huff-IsCode symbol (omega arith)) hb (omega arith))
        (walk_string room s (out ++ (symbol ∷ [])) hs
            (omega (arith, length-append out (symbol ∷ [])))
          ∙ rw (append_assoc out (symbol ∷ []) s) refl)

finish-ones : (j : ℕ) (out : List ℕ) → j < 8 → finish (walk_at (2 ^ j - 1) j out) ≡ some out
unfolding finish
finish-ones j out h = ground arith

-- Bytes whose bits are the codes of a string that fits the output, followed by less than eight ones,
-- decode to that string.
pub huffman_decode-string :
    (room : ℕ) (src s : List ℕ) (j : ℕ)
    → All IsByte s
    → length s ≤ room
    → j < 8
    → bits_of src ≡ string_bits huff s ++ code_bits (2 ^ j - 1) j
    → huffman_decode room src ≡ some s
unfolding huffman_decode
huffman_decode-string room src s j hs hr hj e =
    rw
      (
        take_bytes-walk huff room src (walk_at 0 0 []),
        e,
        walk-append huff room (string_bits huff s) (code_bits (2 ^ j - 1) j) (walk_at 0 0 []),
        walk_string room s [] hs (omega arith),
        walk_clear huff room (2 ^ j - 1) j s (omega (arith, pow-pos j)) (omega arith)
            (ones_clear j hj),
      )
      (finish-ones j s hj)
