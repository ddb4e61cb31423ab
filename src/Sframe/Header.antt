-- ===== src/Sframe/Header.antt =====
-- The header codec of modules/common/sframe_core.rs (RFC 9605, section 4.3). `u64` values are
-- numbers below 2 ^ 64.
pub mod Width
pub mod RoundTrip
use wave.Common.{
  ℕ, zero, suc, ◌+◌, ◌-◌, ◌*◌, ◌/◌, ◌%◌, ◌^◌, Bool, true, false, Option, none, some, List, [], ◌∷◌,
  ◌++◌, ltb, leb, ◌==◌, ◌!=◌, if◌then◌else◌, bit_and, bit_or, bit_xor, length, take, drop, slice,
  copy_at, replicate,
}
use wave.Common.Bytes.{be64}
use wave.Common.BigEndian.{read_be_from}

abbrev pub inline_max : ℕ
inline_max = 7

pub record Header : Type 0 where
  pub key_id : ℕ
  pub counter : ℕ
  pub header_len : ℕ

-- `while remaining != 0 && width < 8`: the second test bounds the rounds by 7.
unfoldable pub width_loop : ℕ → ℕ → ℕ → ℕ
width_loop zero remaining width = width
width_loop (suc rounds) remaining width =
    let rest = width_loop rounds (remaining / 2 ^ 8) (width + 1) in
    if remaining != 0 then rest else width

unfoldable pub width : ℕ → ℕ
width value = width_loop 7 (value / 2 ^ 8) 1

-- The bytes that a field takes behind the config byte.
abbrev pub field_width : ℕ → ℕ
field_width value = if ltb inline_max value then width value else 0

-- `sframe_header_len`
unfoldable pub header_len : ℕ → ℕ → ℕ
header_len key_id counter = 1 + field_width key_id + field_width counter

-- The config byte: K and X, then C and Y.
unfoldable pub config_kid : ℕ → ℕ
config_kid key_id =
    if ltb inline_max key_id
    then bit_or (bit_or 0 0x80) (bit_and (width key_id - 1) 0x07 * 2 ^ 4)
    else bit_or 0 (bit_and (key_id % 256) 0x07 * 2 ^ 4)

unfoldable pub config_byte : ℕ → ℕ → ℕ
config_byte key_id counter =
    let config = config_kid key_id in
    if ltb inline_max counter
    then bit_or (bit_or config 0x08) (bit_and (width counter - 1) 0x07)
    else bit_or config (bit_and (counter % 256) 0x07)

-- `write_be(value, width, &mut out[at..])`
unfoldable pub write_be : ℕ → ℕ → ℕ → List ℕ → List ℕ
write_be value width at out = copy_at at (drop (8 - width) (be64 value)) out

unfoldable pub write : ℕ → ℕ → List ℕ → Option (ℕ × List ℕ)
write key_id counter out =
    let key_width = field_width key_id in
    let counter_width = field_width counter in
    let total = 1 + key_width + counter_width in
    let configured = copy_at 0 (config_byte key_id counter ∷ []) out in
    let keyed =
      if ltb inline_max key_id then write_be key_id key_width 1 configured else configured in
    let at = if ltb inline_max key_id then 1 + key_width else 1 in
    if ltb (length out) total
    then none
    else some
        (total, if ltb inline_max counter then write_be counter counter_width at keyed else keyed)

-- `read_be`
pub read_be : List ℕ → ℕ
read_be bytes = read_be_from 0 bytes

-- What follows the config byte, once it is read.
pub parse_config : ℕ → List ℕ → Option Header
parse_config config buf =
    let extended_kid = bit_and config 0x80 != 0 in
    let extended_ctr = bit_and config 0x08 != 0 in
    let key_field = bit_and (config / 2 ^ 4) 0x07 in
    let counter_field = bit_and config 0x07 in
    let key_width = if extended_kid then key_field + 1 else 0 in
    let counter_width = if extended_ctr then counter_field + 1 else 0 in
    let len = 1 + key_width + counter_width in
    if ltb (length buf) len
    then none
    else some (record {
      key_id = if extended_kid then read_be (slice buf 1 (1 + key_width)) else key_field;
      counter = if extended_ctr then read_be (slice buf (1 + key_width) len) else counter_field;
      header_len = len;
    })

pub parse : List ℕ → Option Header
parse [] = none
parse (config ∷ rest) = parse_config config (config ∷ rest)

-- `frame.get(..header_len)` and `frame.get(header_len..)`
pub associated_data : List ℕ → Header → Option (List ℕ)
associated_data frame header =
    if ltb (length frame) header.header_len then none else some (take header.header_len frame)

pub payload : List ℕ → Header → Option (List ℕ)
payload frame header =
    if ltb (length frame) header.header_len then none else some (drop header.header_len frame)

-- `for (byte, salt_byte) in out.iter_mut().zip(salt.iter()) { *byte ^= *salt_byte; }`
pub xor_salt : List ℕ → List ℕ → List ℕ
xor_salt [] salt = []
xor_salt (b ∷ out) [] = b ∷ out
xor_salt (b ∷ out) (s ∷ salt) = bit_xor b s ∷ xor_salt out salt

pub nonce : ℕ → List ℕ → List ℕ → Option (List ℕ)
unfolding xor_salt
nonce counter salt out =
    let zeroed = replicate (length out) 0 in
    let start = length out - 8 in
    if ltb (length out) 8
    then none
    else if length out != length salt
    then none
    else some (xor_salt (copy_at start (be64 counter) zeroed) salt)
