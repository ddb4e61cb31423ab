-- ===== src/Ws/Runs.antt =====
-- Runs of the frame codec and the client's machine, and their theorems at concrete inputs.
use wave.Common.{ℕ, ◌-◌, ◌^◌, ◌≤◌, ◌≡◌, refl, arith, true, false, some, List, [], ◌∷◌, ◌++◌, length}
use wave.Ws.Mask.{Key, IsKey, mask_rest, mask_apply}
use wave.Ws.Header.{
  Header, done, is_illegal, is_valid_opcode, lengths, mask_part, decode_two, decode_header,
}
use wave.Ws.Frame.{Frame, wput, put_length, put_payload, ws_frame, parse_frame_checked}
use wave.Ws.Frame.Sound.{parse_frame_sound}
use wave.Ws.Phase.{disconnected, ready, start, connected, upgraded, peer_closed, run, transition}

-- The example of RFC 6455, section 5.7: a masked text frame with `Hello`.
abbrev key : Key
key = record { k0 = 0x37; k1 = 0xfa; k2 = 0x21; k3 = 0x3d }

key-IsKey : IsKey key
key-IsKey = (omega arith, omega arith, omega arith, omega arith)

abbrev hello : List ℕ
hello = 0x48 ∷ 0x65 ∷ 0x6c ∷ 0x6c ∷ 0x6f ∷ []

abbrev hello_frame : List ℕ
hello_frame = 0x81 ∷ 0x85 ∷ 0x37 ∷ 0xfa ∷ 0x21 ∷ 0x3d ∷ 0x7f ∷ 0x9f ∷ 0x4d ∷ 0x51 ∷ 0x58 ∷ []

abbrev hello_header : Header
hello_header = record {
  fin = true;
  opcode = 1;
  masked = true;
  mask_key = key;
  header_len = 6;
  payload_len = 5;
}

abbrev hello_parsed : Frame
hello_parsed = record {
  fin = true;
  opcode = 1;
  masked = true;
  payload_start = 6;
  payload_end = 11;
  total = 11;
}

built :
    ws_frame false 1 hello key (0 ∷ 0 ∷ 0 ∷ 0 ∷ 0 ∷ 0 ∷ 0 ∷ 0 ∷ 0 ∷ 0 ∷ 0 ∷ 99 ∷ [])
    ≡ some (11, hello_frame ++ (99 ∷ []))
unfolding ws_frame put_length put_payload wput mask_apply mask_rest
built = refl

decoded : decode_header hello_frame ≡ done hello_header
unfolding decode_header decode_two is_illegal is_valid_opcode lengths mask_part
decoded = refl

parsed : parse_frame_checked (2 ^ 32 - 1) hello_frame ≡ done hello_parsed
unfolding parse_frame_checked decode_header decode_two is_illegal is_valid_opcode lengths mask_part
parsed = refl

parse_frame_sound_example :
    (2 ≤ 6)
    × (6 ≤ 14)
    × (6 ≤ 11)
    × (hello_parsed.payload_end ≡ hello_parsed.total)
    × (11 ≤ length hello_frame)
    × (11 ≤ 2 ^ 32 - 1)
    × (is_valid_opcode 1 ≡ true)
parse_frame_sound_example = parse_frame_sound (2 ^ 32 - 1) hello_frame hello_parsed parsed

reopened :
    run disconnected
      (start ∷ connected ∷ peer_closed ∷ start ∷ upgraded ∷ connected ∷ upgraded ∷ [])
    ≡ ready
unfolding run transition
reopened = refl
