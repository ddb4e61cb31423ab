-- ===== src/Http/Integer.antt =====
-- The HPACK integer and string codecs of modules/foundation/http/wire/hpack.rs. A buffer is the
-- `len` or `dst_cap` bytes its pointer may touch; `none` is `Err(())`, and a count of 0 from an encoder.
pub mod RoundTrip
pub mod Room
pub mod Local
pub mod Strings
use wave.Common.{
  ℕ, ◌+◌, ◌-◌, ◌*◌, ◌/◌, ◌%◌, ◌^◌, Bool, Option, none, some, ◌>>=◌, if◌then◌else◌, List, [], ◌∷◌,
  ltb, leb, ◌==◌, ◌!=◌, bit_and, bit_or, length, copy_at, get_or,
}
use wave.Common.Bytes.{u8}

-- The loop of `decode_integer` at the bytes from `i` on; `checked_shl` refuses a shift of 32 or more, and
-- loses the bits above 2^32 below that.
unfoldable pub decode_rest : List ℕ → ℕ → ℕ → ℕ → Option (ℕ × ℕ)
decode_rest [] value shift i = none
decode_rest (b ∷ buf) value shift i =
    let value' = value + bit_and b 0x7f * 2 ^ shift % 2 ^ 32 in
    let later = decode_rest buf value' (shift + 7) (i + 1) in
    if leb 32 shift
    then none
    else if leb (2 ^ 32) value'
    then none
    else if bit_and b 0x80 == 0
    then some (value', i + 1)
    else if ltb 5 (i + 1)
    then none
    else later

unfoldable pub decode_integer : List ℕ → ℕ → Option (ℕ × ℕ)
decode_integer [] prefix_bits = none
decode_integer (b ∷ buf) prefix_bits =
    let max_prefix = 2 ^ prefix_bits - 1 in
    let first = bit_and b max_prefix in
    if ltb first max_prefix then some (first, 1) else decode_rest buf max_prefix 0 1

-- The continuation bytes of `encode_integer`, in the room that is left.
unfoldable pub encode_rest : List ℕ → ℕ → Option (ℕ × List ℕ)
encode_rest [] rem = none
encode_rest (x ∷ dst) rem =
    let later = encode_rest dst (rem / 2 ^ 7) in
    if leb 128 rem
    then (do (n, written) ← later; some (n + 1, bit_or (u8 (bit_and rem 0x7f)) 0x80 ∷ written))
    else some (1, u8 rem ∷ dst)

unfoldable pub encode_integer : List ℕ → ℕ → ℕ → ℕ → Option (ℕ × List ℕ)
encode_integer [] prefix prefix_bits value = none
encode_integer (x ∷ dst) prefix prefix_bits value =
    let max_prefix = 2 ^ prefix_bits - 1 in
    if ltb value max_prefix then some (1, bit_or prefix (u8 value) ∷ dst) else (do
      (n, written) ← encode_rest dst (value - max_prefix)
      some (n + 1, bit_or prefix (u8 max_prefix) ∷ written))

-- The offset and the length of the string, the bytes consumed, and the Huffman flag. `usize_max` bounds what
-- the target can address: the sum wraps above it.
unfoldable pub decode_string : ℕ → List ℕ → Option (ℕ × ℕ × ℕ × Bool)
decode_string usize_max buf = if length buf == 0 then none else (do
  (slen, hdr) ← decode_integer buf 7
  let total = (hdr + slen) % (usize_max + 1) in
      if ltb (length buf) total
      then none
      else some (hdr, slen, total, bit_and (get_or buf 0 0) 0x80 != 0))

unfoldable pub encode_string : List ℕ → List ℕ → Option (ℕ × List ℕ)
encode_string dst s = do
  (n, written) ← encode_integer dst 0x00 7 (length s % 2 ^ 32)
  if ltb (length dst) (n + length s) then none else some (n + length s, copy_at n s written)
