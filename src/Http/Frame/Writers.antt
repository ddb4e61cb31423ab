-- ===== src/Http/Frame/Writers.antt =====
-- The frame writers of modules/foundation/http/wire/h2.rs against the frames they stand for.
use wave.Common.{
  ℕ, ◌+◌, ◌*◌, ◌/◌, ◌^◌, ◌≤◌, ◌<◌, ◌≡◌, ◌∙◌, refl, ap, sym, arith, Bool, true, false, if◌then◌else◌,
  some, List, [], ◌∷◌, ◌++◌, length, take, drop, drop-drop, copy_at, bit_and, append_assoc,
  append-nil, suc, copy_at_next, length-append, All, slice, slice-append, drop-append, take-length,
}
use wave.Common.Bytes.{IsU16, IsU32, u8, be16, be32}
use wave.Common.Bits.{bit_and-mask}
use wave.Http.Frame.{
  Header, parse_header, write_settings_ack, write_entries, write_settings,
  write_headers_frame_header, headers_flags, write_data_frame_header, write_window_update,
  write_rst_stream, write_goaway, write_ping_ack, split32,
}
use wave.Http.Frame.RoundTrip.{
  header_bytes, write_header_lem, parse_header-bytes, IsHeader, split32_lem,
}

-- The frames the module writes.
pub data Frame : Type 0 where
  settings_ack : Frame
  settings : List (ℕ × ℕ) → Frame
  headers : ℕ → ℕ → Bool → Bool → Frame
  body : ℕ → ℕ → Bool → Frame
  window_update : ℕ → ℕ → Frame
  rst_stream : ℕ → ℕ → Frame
  goaway : ℕ → ℕ → Frame
  ping_ack : List ℕ → Frame

-- The writer of a frame; a HEADERS or DATA writer leaves the payload to its caller.
unfoldable pub write_frame : List ℕ → Frame → ℕ × List ℕ
write_frame dst settings_ack = write_settings_ack dst
write_frame dst (settings s) = write_settings dst s
write_frame dst (headers n sid es eh) = (9, write_headers_frame_header dst n sid es eh)
write_frame dst (body n sid es) = (9, write_data_frame_header dst n sid es)
write_frame dst (window_update sid delta) = write_window_update dst sid delta
write_frame dst (rst_stream sid code) = write_rst_stream dst sid code
write_frame dst (goaway last code) = write_goaway dst last code
write_frame dst (ping_ack opaque) = write_ping_ack dst opaque

entries_bytes : List (ℕ × ℕ) → List ℕ
entries_bytes [] = []
entries_bytes ((id, val) ∷ s) = be16 id ++ (be32 val ++ entries_bytes s)

-- The payload RFC 7540 gives a frame.
unfoldable pub payload_of : Frame → List ℕ
unfolding entries_bytes
payload_of settings_ack = []
payload_of (settings s) = entries_bytes s
payload_of (headers n sid es eh) = []
payload_of (body n sid es) = []
payload_of (window_update sid delta) = be32 delta
payload_of (rst_stream sid code) = be32 code
payload_of (goaway last code) = be32 last ++ be32 code
payload_of (ping_ack opaque) = opaque

-- The header RFC 7540 gives a frame.
unfoldable pub header_of : Frame → Header
header_of settings_ack = record { length = 0; ftype = 4; flags = 1; stream_id = 0 }
header_of (settings s) = record { length = length s * 6; ftype = 4; flags = 0; stream_id = 0 }
header_of (headers n sid es eh) = record {
  length = n;
  ftype = 1;
  flags = (if es then 1 else 0) + (if eh then 4 else 0);
  stream_id = sid;
}
header_of (body n sid es) = record {
  length = n;
  ftype = 0;
  flags = if es then 1 else 0;
  stream_id = sid;
}
header_of (window_update sid delta) = record { length = 4; ftype = 8; flags = 0; stream_id = sid }
header_of (rst_stream sid code) = record { length = 4; ftype = 3; flags = 0; stream_id = sid }
header_of (goaway last code) = record { length = 8; ftype = 7; flags = 0; stream_id = 0 }
header_of (ping_ack opaque) = record { length = 8; ftype = 6; flags = 1; stream_id = 0 }

abbrev pub IsEntry : ℕ × ℕ → Type 0
IsEntry (id, val) = IsU16 id × IsU32 val

-- Identifiers and increments below 2^31, codes below 2^32, lengths below 2^24, eight bytes of PING.
unfoldable pub IsFrame : Frame → Type 0
IsFrame settings_ack = Unit {0}
IsFrame (settings s) = (length s * 6 < 2 ^ 24) × All IsEntry s
IsFrame (headers n sid es eh) = (n < 2 ^ 24) × (sid < 2 ^ 31)
IsFrame (body n sid es) = (n < 2 ^ 24) × (sid < 2 ^ 31)
IsFrame (window_update sid delta) = (sid < 2 ^ 31) × (delta < 2 ^ 31)
IsFrame (rst_stream sid code) = (sid < 2 ^ 31) × IsU32 code
IsFrame (goaway last code) = (last < 2 ^ 31) × IsU32 code
IsFrame (ping_ack opaque) = length opaque ≡ 8

length-entries : (s : List (ℕ × ℕ)) → length (entries_bytes s) ≡ length s * 6
unfolding entries_bytes
length-entries [] = refl
length-entries ((id, val) ∷ s) = omega (arith, length-entries s)

-- A word below 2^32, and one below 2^31 whose top bit the writer clears.
word_bytes : (x : ℕ) → IsU32 x → split32 0xff x ≡ be32 x
word_bytes x h =
    split32_lem 8 x (omega arith)
    ∙ ap (λ (t : ℕ). t ∷ u8 (x / 2 ^ 16) ∷ u8 (x / 2 ^ 8) ∷ u8 x ∷ []) (omega arith)

low_word_bytes : (x : ℕ) → x < 2 ^ 31 → split32 0x7f x ≡ be32 x
low_word_bytes x h =
    split32_lem 7 x (omega arith)
    ∙ ap (λ (t : ℕ). t ∷ u8 (x / 2 ^ 16) ∷ u8 (x / 2 ^ 8) ∷ u8 x ∷ []) (omega arith)

-- The loop over the settings writes one entry after the other.
write_entries_lem :
    (s : List (ℕ × ℕ)) (pre dst : List ℕ) (o : ℕ)
    → o ≡ length pre
    → All IsEntry s
    → write_entries s o (pre ++ drop o dst)
      ≡ (o + length s * 6, (pre ++ entries_bytes s) ++ drop (o + length s * 6) dst)
unfolding write_entries entries_bytes
write_entries_lem [] pre dst o e hs =
    let stay : o + 0 * 6 ≡ o = omega arith in rw (stay, append-nil pre) refl
write_entries_lem ((id, val) ∷ s) pre dst o e ((hi, hv), hs) =
    let eo : o + 2 ≡ length (pre ++ be16 id) = omega (arith, e, length-append pre (be16 id)) in
    let done : o + 6 ≡ length ((pre ++ be16 id) ++ be32 val) =
      omega (arith, e, eo, length-append (pre ++ be16 id) (be32 val)) in
    let six : o + 2 + length (be32 val) ≡ o + 6 = omega arith in
    let on : o + 6 + length s * 6 ≡ o + suc (length s) * 6 = omega arith in
    rw (low_byte, word_bytes val hv, copy_at_next pre (be16 id) dst o e)
      (rw (copy_at_next (pre ++ be16 id) (be32 val) dst (o + 2) eo) (
        rw (six, write_entries_lem s ((pre ++ be16 id) ++ be32 val) dst (o + 6) done hs, on)
          (simp append_assoc refl)))
  where
    low_byte : u8 (bit_and id 0xff) ≡ u8 id
    low_byte = rw (bit_and-mask 8 id) (omega arith)

-- The header and then the payload, at the front of the buffer.
headed :
    (dst src : List ℕ) (h : Header)
    → copy_at 9 src (header_bytes h ++ drop 9 dst)
      ≡ (header_bytes h ++ src) ++ drop (9 + length src) dst
headed dst src h = copy_at_next (header_bytes h) src dst 9 refl

flags : (es eh : Bool) → headers_flags es eh ≡ (if es then 1 else 0) + (if eh then 4 else 0)
unfolding headers_flags
flags true true = refl
flags true false = refl
flags false true = refl
flags false false = refl

take-all : (xs : List ℕ) → length xs ≡ 8 → take 8 xs ≡ xs
take-all xs e = rw (sym e) (take-length xs)

behind :
    (xs ys dst : List ℕ)
    → drop (length xs + length ys) ((xs ++ ys) ++ drop (length xs + length ys) dst)
      ≡ drop (length xs + length ys) dst
behind xs ys dst =
    rw (sym (length-append xs ys)) (drop-append (xs ++ ys) (drop (length (xs ++ ys)) dst))

write_frame-bytes :
    (f : Frame) (dst : List ℕ)
    → IsFrame f
    → write_frame dst f ≡ (
      9 + length (payload_of f),
      (header_bytes (header_of f) ++ payload_of f) ++ drop (9 + length (payload_of f)) dst,
    )
unfolding write_frame payload_of header_of IsFrame
write_frame-bytes settings_ack dst h =
    unfold write_settings_ack in ap (λ l. (9, l)) (write_header_lem dst (header_of settings_ack))
write_frame-bytes (settings s) dst (hl, hs) =
    unfold write_settings in
    rw
      (
        write_header_lem dst (header_of (settings s)),
        write_entries_lem s (header_bytes (header_of (settings s))) dst 9 refl hs,
        length-entries s,
      )
      refl
write_frame-bytes (headers n sid es eh) dst h =
    unfold write_headers_frame_header in
    rw (flags es eh) (ap (λ l. (9, l)) (write_header_lem dst (header_of (headers n sid es eh))))
write_frame-bytes (body n sid es) dst h =
    unfold write_data_frame_header in
    ap (λ l. (9, l)) (write_header_lem dst (header_of (body n sid es)))
write_frame-bytes (window_update sid delta) dst (hs, hd) =
    unfold write_window_update in
    rw (write_header_lem dst (header_of (window_update sid delta)), low_word_bytes delta hd)
      (ap (λ l. (13, l)) (headed dst (be32 delta) (header_of (window_update sid delta))))
write_frame-bytes (rst_stream sid code) dst (hs, hc) =
    unfold write_rst_stream in
    rw (write_header_lem dst (header_of (rst_stream sid code)), word_bytes code hc)
      (ap (λ l. (13, l)) (headed dst (be32 code) (header_of (rst_stream sid code))))
write_frame-bytes (goaway last code) dst (hl, hc) =
    unfold write_goaway in
    rw
      (
        write_header_lem dst (header_of (goaway last code)),
        low_word_bytes last hl,
        word_bytes code hc,
      )
      (rw (drop-drop 4 4 (drop 9 dst), drop-drop 8 9 dst) refl)
write_frame-bytes (ping_ack opaque) dst h =
    unfold write_ping_ack in
    rw (write_header_lem dst (header_of (ping_ack opaque)))
      (rw (take-all opaque h, headed dst opaque (header_of (ping_ack opaque)), h) refl)

header_of-IsHeader : (f : Frame) → IsFrame f → IsHeader (header_of f)
unfolding header_of IsFrame
header_of-IsHeader settings_ack h = omega arith
header_of-IsHeader (settings s) (hl, hs) = omega arith
header_of-IsHeader (headers n sid true true) h = omega arith
header_of-IsHeader (headers n sid true false) h = omega arith
header_of-IsHeader (headers n sid false true) h = omega arith
header_of-IsHeader (headers n sid false false) h = omega arith
header_of-IsHeader (body n sid true) h = omega arith
header_of-IsHeader (body n sid false) h = omega arith
header_of-IsHeader (window_update sid delta) h = omega arith
header_of-IsHeader (rst_stream sid code) h = omega arith
header_of-IsHeader (goaway last code) h = omega arith
header_of-IsHeader (ping_ack opaque) h = omega arith

-- A frame of wire-sized fields is written to every buffer with room for it as the header and the
-- payload of RFC 7540, where a HEADERS or DATA writer leaves the payload to its caller: the count
-- of bytes is 9 and those of the payload, the header parses back, the payload follows it, and the
-- buffer behind is kept.
pub write_frame_lem :
    (f : Frame) (dst : List ℕ)
    → IsFrame f
    → 9 + length (payload_of f) ≤ length dst
    → (n : ℕ) × (written : List ℕ) × (write_frame dst f ≡ (n, written))
      × (n ≡ 9 + length (payload_of f))
      × (parse_header written ≡ some (header_of f))
      × (slice written 9 n ≡ payload_of f)
      × (drop n written ≡ drop n dst)
write_frame_lem f dst h room = (
  9 + length (payload_of f),
  _,
  write_frame-bytes f dst h,
  refl,
  ap parse_header (append_assoc (header_bytes (header_of f)) (payload_of f) _)
      ∙ parse_header-bytes (header_of f) _ (header_of-IsHeader f h),
  slice-append (header_bytes (header_of f)) (payload_of f) _ 9 _ refl refl,
  behind (header_bytes (header_of f)) (payload_of f) dst,
)
