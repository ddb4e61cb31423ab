-- ===== src/Rtp/Header/Parse.antt =====
-- What an accepted packet promises, and that packets are accepted.
use wave.Common.{
  ℕ, zero, suc, ◌/◌, ◌^◌, ◌≤◌, ◌<◌, ◌≡◌, ◌≢◌, arith, Bool, false, Option, none, some, >>=-eq-some,
  List, [], ◌∷◌, leb, ltb, ◌!=◌, if◌then◌else◌, bit_and, length, All,
}
use wave.Common.Bits.{bit_and-mask}
use wave.Common.Bytes.{IsByte, IsU16, from16, from32}
use wave.Rtp.Header.{
  version, header_size, Header, at_byte, csrc_end, skip_extension, drop_padding, locate, parse,
}

-- The bounds that both receive paths index the packet by.
pub record IsInside (pkt : List ℕ) (h : Header) : Type 0 where
  pub behind_header : 12 ≤ h.payload_start
  pub behind_csrc : csrc_end pkt ≤ h.payload_start
  pub some_payload : h.payload_start < h.payload_end
  pub inside : h.payload_end ≤ length pkt

skip_bounds :
    (pkt : List ℕ) (start : ℕ) {first : ℕ}
    → start < length pkt
    → skip_extension pkt start ≡ some first
    → (start ≤ first) × (first < length pkt)
unfolding skip_extension
skip_bounds pkt start h e = ground arith

padding_bounds :
    (pkt : List ℕ) (start : ℕ) {last : ℕ}
    → start < length pkt
    → drop_padding pkt start ≡ some last
    → (start ≤ last) × (last ≤ length pkt)
unfolding drop_padding
padding_bounds pkt start h e = ground arith

-- The last part of the decoder, once the bounds of the payload are known.
header_at : List ℕ → ℕ → ℕ → Header
header_at pkt first last =
    let at = at_byte pkt in
    record {
      payload_type = bit_and (at 1) 0x7f;
      marker = bit_and (at 1) 0x80 != 0;
      seq = from16 (at 3) (at 2);
      timestamp = from32 (at 7) (at 6) (at 5) (at 4);
      ssrc = from32 (at 11) (at 10) (at 9) (at 8);
      payload_start = first;
      payload_end = last;
    }

checks_passed {ℓ} :
    {A : Type ℓ} (a b c : Bool) (m : Option A) {v : A}
    → (if a then none else if b then none else if c then none else m) ≡ some v
    → (a ≡ false) × (b ≡ false) × (c ≡ false) × (m ≡ some v)
checks_passed a b c m e = ground arith

parse_steps :
    (pkt : List ℕ) (h : Header)
    → parse pkt ≡ some h
    → (bit_and (at_byte pkt 0 / 2 ^ 6) 0x03 ≡ 2)
      × (csrc_end pkt < length pkt)
      × (first : ℕ) × (last : ℕ) × (skip_extension pkt (csrc_end pkt) ≡ some first)
      × (drop_padding pkt first ≡ some last)
      × (last ≢ first)
      × (h ≡ header_at pkt first last)
unfolding parse locate header_at
parse_steps pkt h e =
    let (a, b, c, m) =
      checks_passed (ltb (length pkt) header_size) (bit_and (at_byte pkt 0 / 2 ^ 6) 0x03 != version)
        (leb (length pkt) (csrc_end pkt)) (locate pkt) e in
    let (first, e1, m1) = >>=-eq-some (skip_extension pkt (csrc_end pkt)) _ m in
    let (last, e2, m2) = >>=-eq-some (drop_padding pkt first) _ m1 in
    (ground arith, ground arith, first, last, e1, e2, ground arith, ground arith)

IsByte-at : (pkt : List ℕ) (i : ℕ) → All IsByte pkt → IsByte (at_byte pkt i)
IsByte-at [] i h = omega arith
IsByte-at (x ∷ pkt) zero (b, h) = b
IsByte-at (x ∷ pkt) (suc i) (b, h) = IsByte-at pkt i h

-- Of every accepted packet, a list of bytes, the payload lies inside the packet, behind the fixed
-- header and the CSRC list, and is not empty; the version is 2, and the sequence number has 16 bits
-- and the payload type 7.
pub rtp_parse_sound :
    (pkt : List ℕ) (h : Header)
    → All IsByte pkt
    → parse pkt ≡ some h
    → IsInside pkt h
      × (bit_and (at_byte pkt 0 / 2 ^ 6) 0x03 ≡ 2)
      × IsU16 h.seq
      × (h.payload_type < 128)
unfolding header_at
rtp_parse_sound pkt h bytes e =
    let (v, csrc, first, last, e1, e2, ne, eh) = parse_steps pkt h e in
    let (low, high) = skip_bounds pkt (csrc_end pkt) csrc e1 in
    let (low', high') = padding_bounds pkt first high e2 in
    rw eh (
      record {
        behind_header = omega arith;
        behind_csrc = low;
        some_payload = omega arith;
        inside = high';
      },
      v,
      omega (arith, IsByte-at pkt 2 bytes, IsByte-at pkt 3 bytes),
      omega (arith, bit_and-mask 7 (at_byte pkt 1)),
    )
