-- ===== src/Rtp/Header.antt =====
-- modules/common/rtp_core.rs: the RTP header decoder and the MID extension.
pub mod Parse
pub mod Mid
use wave.Common.{
  ℕ, zero, suc, ◌+◌, ◌-◌, ◌*◌, ◌/◌, ◌%◌, ◌^◌, Bool, true, false, ◌||◌, Option, none, some, ◌>>=◌,
  guard, List, [], ◌∷◌, leb, ltb, ◌==◌, ◌!=◌, if◌then◌else◌, bit_and, bit_or, length, get_or, slice,
}
use wave.Common.Bytes.{from16, from32}

abbrev pub version : ℕ
version = 2

abbrev pub header_size : ℕ
header_size = 12

-- `RtpHeader`
pub record Header : Type 0 where
  pub payload_type : ℕ
  pub marker : Bool
  pub seq : ℕ
  pub timestamp : ℕ
  pub ssrc : ℕ
  pub payload_start : ℕ
  pub payload_end : ℕ

abbrev pub at_byte : List ℕ → ℕ → ℕ
at_byte pkt i = get_or pkt i 0

-- The length of the fixed header and the CSRC list.
abbrev pub csrc_end : List ℕ → ℕ
csrc_end pkt = header_size + bit_and (at_byte pkt 0) 0x0f * 4

-- `((pkt[start + 2] as usize) << 8) | (pkt[start + 3] as usize)`
unfoldable pub extension_words : List ℕ → ℕ → ℕ
extension_words pkt start = bit_or (at_byte pkt (start + 2) * 2 ^ 8) (at_byte pkt (start + 3))

-- The start of the payload behind the extension.
unfoldable pub skip_extension : List ℕ → ℕ → Option ℕ
unfolding extension_words
skip_extension pkt start =
    let total = 4 + extension_words pkt start * 4 in
    if bit_and (at_byte pkt 0) 0x10 != 0
    then if ltb (length pkt) (start + 4)
      then none
      else if leb (length pkt) (start + total)
      then none
      else some (start + total)
    else some start

-- The end of the payload before the padding.
unfoldable pub drop_padding : List ℕ → ℕ → Option ℕ
drop_padding pkt start =
    let whole = length pkt in
    let pad = at_byte pkt (whole - 1) in
    if bit_and (at_byte pkt 0) 0x20 != 0
    then if pad == 0 || ltb (whole - start) pad then none else some (whole - pad)
    else some whole

-- The decoder behind its tests on the fixed header.
unfoldable pub locate : List ℕ → Option Header
unfolding skip_extension drop_padding
locate pkt = do
  let at = at_byte pkt
  first ← skip_extension pkt (csrc_end pkt)
  last ← drop_padding pkt first
  if last == first
      then none
      else some (record {
        payload_type = bit_and (at 1) 0x7f;
        marker = bit_and (at 1) 0x80 != 0;
        seq = from16 (at 3) (at 2);
        timestamp = from32 (at 7) (at 6) (at 5) (at 4);
        ssrc = from32 (at 11) (at 10) (at 9) (at 8);
        payload_start = first;
        payload_end = last;
      })

unfoldable pub parse : List ℕ → Option Header
unfolding locate
parse pkt =
    if ltb (length pkt) header_size
    then none
    else if bit_and (at_byte pkt 0 / 2 ^ 6) 0x03 != version
    then none
    else if leb (length pkt) (csrc_end pkt)
    then none
    else locate pkt

abbrev pub payload_len : Header → ℕ
payload_len h = h.payload_end - h.payload_start

-- The search of `rtp_mid` through the elements from `at` to `end`; the rounds are the fuel.
unfoldable pub find_mid : ℕ → List ℕ → ℕ → ℕ → List ℕ
find_mid zero pkt at end = []
find_mid (suc rounds) pkt at end =
    let descriptor = at_byte pkt at in
    let id = descriptor / 2 ^ 4 in
    let len = bit_and descriptor 0x0f + 1 in
    let padded = find_mid rounds pkt (at + 1) end in
    let rest = find_mid rounds pkt (at + 1 + len) end in
    if leb end at
    then []
    else if descriptor == 0
    then padded
    else if id == 15
    then []
    else if ltb end (at + 1 + len)
    then []
    else if id == 10
    then slice pkt (at + 1) (at + 1 + len)
    else rest

-- `rtp_mid`; `usize_max` bounds what the target can address.
unfoldable pub mid : ℕ → List ℕ → Header → List ℕ
unfolding find_mid
mid usize_max pkt header =
    let at = at_byte pkt in
    let ext = csrc_end pkt in
    let profile = from16 (at (ext + 1)) (at ext) in
    let bytes = from16 (at (ext + 3)) (at (ext + 2)) * 4 in
    let first = ext + 4 in
    if ltb (length pkt) header_size || ltb (length pkt) header.payload_start
    then []
    else if bit_and (at 0) 0x10 == 0 || ltb header.payload_start (ext + 4)
    then []
    else if profile != 0xbede || (ltb usize_max (first + bytes) || ltb (length pkt) (first + bytes))
    then []
    else find_mid bytes pkt first (first + bytes)
