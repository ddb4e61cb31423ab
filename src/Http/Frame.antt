-- ===== src/Http/Frame.antt =====
-- The HTTP/2 frame header and the frame writers of modules/foundation/http/wire/h2.rs. A writer
-- takes the buffer `dst` points to and returns it beside the count of bytes.
pub mod RoundTrip
pub mod Writers
use wave.Common.{
  ℕ, ◌+◌, ◌*◌, ◌/◌, ◌^◌, Bool, Option, none, some, if◌then◌else◌, List, [], ◌∷◌, ltb, bit_and,
  bit_or, length, get_or, take, copy_at,
}
use wave.Common.Bytes.{u8}

-- `FRAME_HEADER_LEN`
abbrev pub frame_header_len : ℕ
frame_header_len = 9

abbrev pub frame_data : ℕ
frame_data = 0x0

abbrev pub frame_headers : ℕ
frame_headers = 0x1

abbrev pub frame_rst_stream : ℕ
frame_rst_stream = 0x3

abbrev pub frame_settings : ℕ
frame_settings = 0x4

abbrev pub frame_ping : ℕ
frame_ping = 0x6

abbrev pub frame_goaway : ℕ
frame_goaway = 0x7

abbrev pub frame_window_update : ℕ
frame_window_update = 0x8

abbrev pub flag_end_stream : ℕ
flag_end_stream = 0x1

abbrev pub flag_ack : ℕ
flag_ack = 0x1

abbrev pub flag_end_headers : ℕ
flag_end_headers = 0x4

-- `Header`
pub record Header : Type 0 where
  pub length : ℕ
  pub ftype : ℕ
  pub flags : ℕ
  pub stream_id : ℕ

-- `(a << 8) | b` and its longer forms, on bytes.
unfoldable pub join16 : ℕ → ℕ → ℕ
join16 a b = bit_or (a * 2 ^ 8) b

unfoldable pub join24 : ℕ → ℕ → ℕ → ℕ
join24 a b c = bit_or (bit_or (a * 2 ^ 16) (b * 2 ^ 8)) c

unfoldable pub join32 : ℕ → ℕ → ℕ → ℕ → ℕ
join32 a b c d = bit_or (bit_or (bit_or (a * 2 ^ 24) (b * 2 ^ 16)) (c * 2 ^ 8)) d

unfoldable pub parse_header : List ℕ → Option Header
parse_header buf =
    let at = λ (i : ℕ). get_or buf i 0 in
    if ltb (length buf) frame_header_len
    then none
    else some (record {
      length = join24 (at 0) (at 1) (at 2);
      ftype = at 3;
      flags = at 4;
      stream_id = join32 (bit_and (at 5) 0x7f) (at 6) (at 7) (at 8);
    })

-- `((x >> 24) & mask) as u8` and the three bytes behind it.
unfoldable pub split32 : ℕ → ℕ → List ℕ
split32 mask x =
    u8 (bit_and (x / 2 ^ 24) mask)
    ∷ u8 (bit_and (x / 2 ^ 16) 0xff)
    ∷ u8 (bit_and (x / 2 ^ 8) 0xff)
    ∷ u8 (bit_and x 0xff)
    ∷ []

unfoldable pub write_header : List ℕ → ℕ → ℕ → ℕ → ℕ → List ℕ
write_header dst len ftype flags stream_id = copy_at 5 (split32 0x7f stream_id) (
    copy_at 0
      (u8 (bit_and (len / 2 ^ 16) 0xff)
        ∷ u8 (bit_and (len / 2 ^ 8) 0xff)
        ∷ u8 (bit_and len 0xff)
        ∷ ftype
        ∷ flags
        ∷ [])
      dst)

unfoldable pub write_settings_ack : List ℕ → ℕ × List ℕ
write_settings_ack dst = (frame_header_len, write_header dst 0 frame_settings flag_ack 0)

-- The loop of `write_settings`, at offset `o`.
unfoldable pub write_entries : List (ℕ × ℕ) → ℕ → List ℕ → ℕ × List ℕ
write_entries [] o dst = (o, dst)
write_entries ((id, val) ∷ settings) o dst = write_entries settings (o + 6) (
    copy_at (o + 2) (split32 0xff val)
      (copy_at o (u8 (id / 2 ^ 8) ∷ u8 (bit_and id 0xff) ∷ []) dst))

unfoldable pub write_settings : List ℕ → List (ℕ × ℕ) → ℕ × List ℕ
write_settings dst settings =
    write_entries settings frame_header_len
      (write_header dst (length settings * 6) frame_settings 0 0)

unfoldable pub headers_flags : Bool → Bool → ℕ
headers_flags end_stream end_headers =
    let flags = if end_stream then bit_or 0 flag_end_stream else 0 in
    if end_headers then bit_or flags flag_end_headers else flags

unfoldable pub write_headers_frame_header : List ℕ → ℕ → ℕ → Bool → Bool → List ℕ
write_headers_frame_header dst block_len stream_id end_stream end_headers =
    write_header dst block_len frame_headers (headers_flags end_stream end_headers) stream_id

unfoldable pub write_data_frame_header : List ℕ → ℕ → ℕ → Bool → List ℕ
write_data_frame_header dst payload_len stream_id end_stream =
    write_header dst payload_len frame_data (if end_stream then flag_end_stream else 0) stream_id

unfoldable pub write_window_update : List ℕ → ℕ → ℕ → ℕ × List ℕ
write_window_update dst stream_id delta =
    let headed = write_header dst 4 frame_window_update 0 stream_id in
    (frame_header_len + 4, copy_at frame_header_len (split32 0x7f delta) headed)

unfoldable pub write_rst_stream : List ℕ → ℕ → ℕ → ℕ × List ℕ
write_rst_stream dst stream_id error_code =
    let headed = write_header dst 4 frame_rst_stream 0 stream_id in
    (frame_header_len + 4, copy_at frame_header_len (split32 0xff error_code) headed)

unfoldable pub write_goaway : List ℕ → ℕ → ℕ → ℕ × List ℕ
write_goaway dst last_stream_id error_code =
    let headed = write_header dst 8 frame_goaway 0 0 in
    let o = frame_header_len in
    (
      o + 4 + 4,
      copy_at (o + 4) (split32 0xff error_code) (copy_at o (split32 0x7f last_stream_id) headed),
    )

unfoldable pub write_ping_ack : List ℕ → List ℕ → ℕ × List ℕ
write_ping_ack dst opaque =
    let headed = write_header dst 8 frame_ping flag_ack 0 in
    (frame_header_len + 8, copy_at frame_header_len (take 8 opaque) headed)
