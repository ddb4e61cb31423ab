-- ===== src/Http/Huffman.antt =====
-- The Huffman code of RFC 7541 and its decoder, modules/common/huffman_core.rs.
pub mod Table
pub mod Spec
pub mod Prefix
pub mod Complete
pub mod Sound
use wave.Common.{
  ℕ, zero, suc, ◌+◌, ◌-◌, ◌*◌, ◌/◌, ◌%◌, ◌^◌, Bool, true, false, ◌&&◌, Option, none, some, ◌>>=◌,
  if◌then◌else◌, List, [], ◌∷◌, ◌++◌, ltb, leb, ◌==◌, ◌!=◌, bit_and, bit_or, length,
}
use wave.Http.Huffman.Table.{huff}

-- The scan for a symbol with the code `cur` of `nbits` bits, from symbol `sym` on.
unfoldable pub find_symbol : List (ℕ × ℕ) → ℕ → ℕ → ℕ → Option ℕ
find_symbol [] cur nbits sym = none
find_symbol ((code, len) ∷ table) cur nbits sym =
    let later = find_symbol table cur nbits (suc sym) in
    if len == nbits && code == cur then some sym else later

-- `cur`, `nbits` and the bytes written so far.
pub record Walk : Type 0 where
  pub cur : ℕ
  pub nbits : ℕ
  pub out : List ℕ

-- What the scan's outcome means; `room` is the length of the output buffer.
unfoldable pub on_symbol : ℕ → ℕ → ℕ → List ℕ → Option ℕ → Option Walk
on_symbol room cur nbits out none = some (record { cur = cur; nbits = nbits; out = out })
on_symbol room cur nbits out (some sym) =
    if sym == 256
    then none
    else if leb room (length out)
    then none
    else some (record { cur = 0; nbits = 0; out = out ++ (sym % 256 ∷ []) })

-- The body of the loop over the bits of a byte.
unfoldable pub take_bit : List (ℕ × ℕ) → ℕ → Walk → ℕ → Option Walk
take_bit table room w bit =
    let cur = bit_or (w.cur * 2 % 2 ^ 32) bit in
    let nbits = w.nbits + 1 in
    if ltb 30 nbits then none else on_symbol room cur nbits w.out (find_symbol table cur nbits 0)

-- `(byte >> b) & 1` for the `b` bits that are left, highest first.
unfoldable pub take_bits : List (ℕ × ℕ) → ℕ → ℕ → ℕ → Walk → Option Walk
take_bits table room byte zero w = some w
take_bits table room byte (suc b) w = do
  next ← take_bit table room w (bit_and (byte / 2 ^ b) 1)
  take_bits table room byte b next

unfoldable pub take_bytes : List (ℕ × ℕ) → ℕ → List ℕ → Walk → Option Walk
take_bytes table room [] w = some w
take_bytes table room (byte ∷ src) w = do
  next ← take_bits table room byte 8 w
  take_bytes table room src next

-- The bits that are left must be less than a byte of ones.
unfoldable pub finish : Walk → Option (List ℕ)
finish w =
    if leb 8 w.nbits
    then none
    else if ltb 0 w.nbits && w.cur != 2 ^ w.nbits - 1
    then none
    else some w.out

-- The bytes that `huffman_decode` writes to an output of `room` bytes.
unfoldable pub huffman_decode : ℕ → List ℕ → Option (List ℕ)
huffman_decode room src = do
  w ← take_bytes huff room src (record { cur = 0; nbits = 0; out = [] })
  finish w
