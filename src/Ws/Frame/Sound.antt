-- ===== src/Ws/Frame/Sound.antt =====
-- What a parsed frame promises, on every input.
use wave.Common.{ℕ, ◌+◌, ◌≤◌, ◌≡◌, refl, arith, true, List, length}
use wave.Ws.Header.{Header, Outcome, done, incomplete, invalid, decode_header, is_valid_opcode}
use wave.Ws.Header.Sound.{decode_header-IsSound}
use wave.Ws.Frame.{Frame, parse_frame_checked}

-- The frame of a header with room for it.
frame_of : Header → Frame
frame_of h = record {
  fin = h.fin;
  opcode = h.opcode;
  masked = h.masked;
  payload_start = h.header_len;
  payload_end = h.header_len + h.payload_len;
  total = h.header_len + h.payload_len;
}

frame_steps :
    (m : Outcome Header) (usize_max : ℕ) (buf : List ℕ) (f : Frame)
    → decode_header buf ≡ m
    → parse_frame_checked usize_max buf ≡ done f
    → (h : Header) × (decode_header buf ≡ done h)
      × (f ≡ frame_of h)
      × (h.header_len + h.payload_len ≤ usize_max)
      × (h.header_len + h.payload_len ≤ length buf)
unfolding parse_frame_checked frame_of
frame_steps incomplete usize_max buf f d e = cc (rw (d, parse_frame_checked) at e)
frame_steps invalid usize_max buf f d e = cc (rw (d, parse_frame_checked) at e)
frame_steps (done h) usize_max buf f d e =
    let e' = rw (d, parse_frame_checked) at e in (h, d, ground arith, ground arith, ground arith)

-- Every frame that `ws_parse_frame_checked` returns lies in the buffer and in the target's address
-- range: its payload is behind a header of 2 to 14 bytes and ends where the frame ends; its opcode is a
-- defined one.
pub parse_frame_sound :
    (usize_max : ℕ) (buf : List ℕ) (f : Frame)
    → parse_frame_checked usize_max buf ≡ done f
    → (2 ≤ f.payload_start)
      × (f.payload_start ≤ 14)
      × (f.payload_start ≤ f.payload_end)
      × (f.payload_end ≡ f.total)
      × (f.total ≤ length buf)
      × (f.total ≤ usize_max)
      × (is_valid_opcode f.opcode ≡ true)
unfolding frame_of
parse_frame_sound usize_max buf f e =
    let (h, d, ef, addressed, present) = frame_steps (decode_header buf) usize_max buf f refl e in
    let s = decode_header-IsSound buf h d in
    rw ef (s.long, s.short, omega arith, refl, present, addressed, s.known)
