-- ===== src/Hex.antt =====
-- modules/common/hex_core.rs: the hexadecimal codec of module parameters. A function that fills a
-- buffer returns it beside the count; on an error the buffer is not looked at.
pub mod RoundTrip
mod Runs
use wave.Common.{
  ℕ, zero, suc, ◌+◌, ◌-◌, ◌*◌, ◌/◌, ◌%◌, ◌^◌, Bool, true, false, ◌&&◌, Option, none, some, ◌>>=◌,
  List, [], ◌∷◌, leb, ltb, ◌!=◌, if◌then◌else◌, bit_and, bit_or, length, get_or, set,
}

unfoldable pub nibble : ℕ → Option ℕ
nibble c =
    if leb 0x30 c && leb c 0x39
    then some (c - 0x30)
    else if leb 0x61 c && leb c 0x66
    then some (c - 0x61 + 10)
    else if leb 0x41 c && leb c 0x46
    then some (c - 0x41 + 10)
    else none

-- `b"0123456789abcdef"`
abbrev pub digits : List ℕ
digits =
    0x30 ∷ 0x31 ∷ 0x32 ∷ 0x33 ∷ 0x34 ∷ 0x35 ∷ 0x36 ∷ 0x37 ∷ 0x38 ∷ 0x39 ∷ 0x61 ∷ 0x62 ∷ 0x63 ∷ 0x64
    ∷ 0x65 ∷ 0x66 ∷ []

-- The loop from byte `i` of the output: each round reads two digits.
unfoldable pub decode_loop : List ℕ → ℕ → List ℕ → Option (List ℕ)
decode_loop [] i out = some out
decode_loop (h ∷ []) i out = some out
decode_loop (h ∷ l ∷ hex) i out = do
  hi ← nibble h
  lo ← nibble l
  decode_loop hex (i + 1) (set out i (bit_or (hi * 2 ^ 4 % 256) lo))

unfoldable pub decode : List ℕ → List ℕ → Option (ℕ × List ℕ)
decode hex out =
    let n = length hex / 2 in
    if length hex % 2 != 0
    then none
    else if ltb (length out) n
    then none
    else (do filled ← decode_loop hex 0 out; some (n, filled))

-- The loop from byte `i` of the input, with the bytes that are left.
unfoldable pub encode_loop : List ℕ → ℕ → List ℕ → List ℕ
encode_loop [] i out = out
encode_loop (b ∷ bytes) i out = encode_loop bytes (i + 1) (
    set (set out (2 * i) (get_or digits (b / 2 ^ 4) 0)) (2 * i + 1)
      (get_or digits (bit_and b 0x0f) 0))

unfoldable pub encode : List ℕ → List ℕ → Option (ℕ × List ℕ)
unfolding encode_loop
encode bytes out =
    let need = length bytes * 2 in
    if ltb (length out) need then none else some (need, encode_loop bytes 0 out)
