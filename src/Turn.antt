-- ===== src/Turn.antt =====
-- ChannelData frames beside STUN messages on one socket, modules/common/turn_core.rs.
pub mod Attributes
mod Runs
use wave.Common.{
  ℕ, zero, suc, bit_and, All, Bool-cases, inl, inr, ◌+◌, ◌-◌, ◌*◌, ◌/◌, ◌^◌, ◌≤◌, ◌<◌, ◌≡◌, ◌∙◌,
  refl, ap, arith, Bool, true, false, not, ◌&&◌, ◌||◌, Option, none, some, if◌then◌else◌, List, [],
  ◌∷◌, ◌++◌, ltb, leb, ◌==◌, ◌!=◌, length, length-append, get_or, slice, drop, take-append, copy_at,
  drop-drop,
}
use wave.Common.Bytes.{IsByte, be16, from16, from16-bytes, u8}
use wave.Stun.Message.{Header, parse_header, is_plausible}

abbrev pub channel_data_header_len : ℕ
channel_data_header_len = 4

unfoldable pub channel_number_is_valid : ℕ → Bool
channel_number_is_valid channel = leb 0x4000 channel && leb channel 0x7fff

-- `RelayedDatagram`
pub data RelayedDatagram : Type 0 where
  stun : RelayedDatagram
  channel_data : ℕ → ℕ → ℕ → RelayedDatagram
  unrecognised : RelayedDatagram

unfoldable pub classify_relayed : List ℕ → RelayedDatagram
unfolding channel_number_is_valid
classify_relayed buf =
    let at = λ (i : ℕ). get_or buf i 0 in
    let leading = at 0 / 2 ^ 6 in
    let channel = from16 (at 1) (at 0) in
    let len = from16 (at 3) (at 2) in
    if ltb (length buf) channel_data_header_len
    then unrecognised
    else if leading == 0
    then stun
    else if leading != 1
    then unrecognised
    else if not (channel_number_is_valid channel)
    then unrecognised
    else if ltb (length buf) (channel_data_header_len + len)
    then unrecognised
    else channel_data channel channel_data_header_len len

unfoldable pub write_channel_data : ℕ → List ℕ → List ℕ → Option (ℕ × List ℕ)
unfolding channel_number_is_valid
write_channel_data channel payload out =
    let total = channel_data_header_len + length payload in
    if not (channel_number_is_valid channel)
    then none
    else if ltb 65535 (length payload)
    then none
    else if ltb (length out) total
    then none
    else some (
      total,
      copy_at 4 payload (copy_at 2 (be16 (length payload)) (copy_at 0 (be16 channel) out)),
    )

-- `(total + 3) & !3`
unfoldable pub channel_data_padded_len : ℕ → ℕ
channel_data_padded_len payload_len = (channel_data_header_len + payload_len + 3) / 4 * 4

-- The bytes of a frame.
abbrev pub frame_bytes : ℕ → List ℕ → List ℕ
frame_bytes channel payload = be16 channel ++ (be16 (length payload) ++ payload)

write_channel_data-bytes :
    (channel : ℕ) (payload dst : List ℕ)
    → channel_number_is_valid channel ≡ true
    → length payload < 2 ^ 16
    → 4 + length payload ≤ length dst
    → write_channel_data channel payload dst
      ≡ some (
        length (frame_bytes channel payload),
        frame_bytes channel payload ++ drop (length (frame_bytes channel payload)) dst,
      )
unfolding write_channel_data
write_channel_data-bytes channel payload dst valid h room =
    let n = length payload in
    let small : ltb 65535 n ≡ false = ground arith in
    let fits : ltb (length dst) (channel_data_header_len + n) ≡ false = ground arith in
    let four : channel_data_header_len + n ≡ suc (suc (suc (suc n))) = omega arith in
    let sum : 2 + (2 + n) ≡ suc (suc (suc (suc n))) = omega arith in
    let behind : drop n (drop 2 (drop 2 dst)) ≡ drop (suc (suc (suc (suc n)))) dst =
      drop-drop n 2 (drop 2 dst) ∙ drop-drop (2 + n) 2 dst ∙ ap (λ (t : ℕ). drop t dst) sum in
    rw (valid, small, fits, four) (rw behind refl)

bounds_of :
    (channel : ℕ) → channel_number_is_valid channel ≡ true → (0x4000 ≤ channel) × (channel ≤ 0x7fff)
unfolding channel_number_is_valid
bounds_of channel e = ground arith

-- A frame on a channel that a peer may be bound to, with a payload below 2^16 bytes, is written to every
-- buffer with room for it. In front of anything it is classified as that channel's data, and the
-- span holds the payload.
pub classify-write :
    (channel : ℕ) (payload dst rest : List ℕ)
    → channel_number_is_valid channel ≡ true
    → length payload < 2 ^ 16
    → 4 + length payload ≤ length dst
    → (bytes : List ℕ) × (write_channel_data channel payload dst
        ≡ some (length bytes, bytes ++ drop (length bytes) dst))
      × (classify_relayed (bytes ++ rest) ≡ channel_data channel 4 (length payload))
      × (slice (bytes ++ rest) 4 (4 + length payload) ≡ payload)
unfolding classify_relayed
classify-write channel payload dst rest valid h room =
    let (low, high) = bounds_of channel valid in
    let width : 4 + length payload - 4 ≡ length payload = omega arith in
    let leading : u8 (channel / 2 ^ 8) / 2 ^ 6 ≡ 1 = omega arith in
    (
      frame_bytes channel payload,
      write_channel_data-bytes channel payload dst valid h room,
      rw (from16-bytes channel (omega arith), from16-bytes (length payload) h, leading, valid)
          (ground (arith, length-append payload rest)),
      rw width (take-append payload rest),
    )

-- The bytes whose two leading bits are clear.
below : ℕ → Bool
below zero = true
below (suc b) = (not (bit_and b 0xc0 == 0) || b / 2 ^ 6 == 0) && below b

below-at : (n b : ℕ) → below n ≡ true → b < n → bit_and b 0xc0 ≡ 0 → b / 2 ^ 6 ≡ 0
unfolding below
below-at zero b e h z = absurd (omega arith)
below-at (suc n) b e h z = elim (Bool-cases (n == b)) [
  | inl here ↦ let same : n ≡ b = ground arith in ground arith
  | inr other ↦ below-at n b (ground arith) (ground arith) z
]

all_below_256 : below 256 ≡ true
unfolding below
all_below_256 = refl

-- Bytes that have a STUN header are never taken for channel data: they are classified as STUN.
pub classify-parse_header :
    (buf : List ℕ) (h : Header)
    → All IsByte buf
    → parse_header buf ≡ some h
    → classify_relayed buf ≡ stun
unfolding classify_relayed parse_header is_plausible
classify-parse_header [] h hb e = ground arith
classify-parse_header (b ∷ buf) h (hb, rest) e =
    let clear : bit_and b 0xc0 ≡ 0 = ground arith in
    let leading : b / 2 ^ 6 ≡ 0 = below-at 256 b all_below_256 hb clear in ground arith
