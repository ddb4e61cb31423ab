-- ===== src/Http/Extent.antt =====
-- `data_payload_extent` and `headers_block_extent` of modules/foundation/http/wire/h2.rs. A payload
-- is the bytes the frame's length names.
use wave.Common.{
  ℕ, ◌+◌, ◌-◌, ◌≡◌, arith, Option, none, some, if◌then◌else◌, ◌>>=◌, ◌↔◌, List, ltb, ◌!=◌, bit_and,
  length, get_or,
}

abbrev pub flag_padded : ℕ
flag_padded = 0x8

abbrev pub flag_priority : ℕ
flag_priority = 0x20

-- The offset and the length of the body; `none` is `Err(())`.
unfoldable pub data_payload_extent : List ℕ → ℕ → Option (ℕ × ℕ)
data_payload_extent payload flags =
    let pad = get_or payload 0 0 in
    if bit_and flags flag_padded != 0
    then if ltb (length payload) 1
      then none
      else if ltb (length payload) (pad + 1)
      then none
      else some (1, length payload - pad - 1)
    else some (0, length payload)

-- The pad length and the offset behind the optional PADDED prefix.
unfoldable pub pad_part : List ℕ → ℕ → Option (ℕ × ℕ)
pad_part payload flags =
    if bit_and flags flag_padded != 0
    then if ltb (length payload) 1 then none else some (get_or payload 0 0, 1)
    else some (0, 0)

-- The offset behind the optional PRIORITY fields.
unfoldable pub priority_part : List ℕ → ℕ → ℕ → Option ℕ
priority_part payload flags start =
    if bit_and flags flag_priority != 0
    then if ltb (length payload) (start + 5) then none else some (start + 5)
    else some start

-- The offset and the length of the header block; the subtraction in `i64` becomes a comparison.
unfoldable pub headers_block_extent : List ℕ → ℕ → Option (ℕ × ℕ)
unfolding pad_part priority_part
headers_block_extent payload flags = do
  (pad, unpadded) ← pad_part payload flags
  start ← priority_part payload flags unpadded
  if ltb (length payload) (start + pad) then none else some (start, length payload - pad - start)

-- What the flags say stands in front of the block, and behind it.
abbrev pub pad_of : List ℕ → ℕ → ℕ
pad_of payload flags = if bit_and flags flag_padded != 0 then get_or payload 0 0 else 0

abbrev pub pad_front : ℕ → ℕ
pad_front flags = if bit_and flags flag_padded != 0 then 1 else 0

abbrev pub priority_front : ℕ → ℕ
priority_front flags = if bit_and flags flag_priority != 0 then 5 else 0

-- A HEADERS payload is accepted exactly when its prefixes, some block and its padding fill it, and then
-- the answer is the offset behind the prefixes and the length of that block.
pub headers_block_extent_iff :
    (payload : List ℕ) (flags start n : ℕ)
    → (headers_block_extent payload flags ≡ some (start, n)) ↔ (
        (start ≡ pad_front flags + priority_front flags)
        × (start + n + pad_of payload flags ≡ length payload))
unfolding headers_block_extent pad_part priority_part
headers_block_extent_iff payload flags start n = ground arith

-- A DATA payload is accepted exactly when the optional pad length, some body and the padding fill it,
-- and then the answer is the offset and the length of that body.
pub data_payload_extent_iff :
    (payload : List ℕ) (flags start n : ℕ)
    → (data_payload_extent payload flags ≡ some (start, n))
      ↔ ((start ≡ pad_front flags) × (start + n + pad_of payload flags ≡ length payload))
unfolding data_payload_extent
data_payload_extent_iff payload flags start n = ground arith
