-- ===== src/Ws/Frame.antt =====
-- The frame builder and parser of modules/common/ws_core.rs.
pub mod Sound
use wave.Common.{
  ℕ, zero, suc, ◌+◌, ◌-◌, ◌*◌, ◌/◌, ◌%◌, ◌^◌, ◌<◌, Bool, true, false, not, ◌&&◌, ◌||◌,
  if◌then◌else◌, Option, none, some, ◌>>=◌, List, [], ◌∷◌, ◌++◌, ltb, bit_and, bit_or, length, take,
  drop, slice, copy_at,
}
use wave.Common.Bytes.{be16, be64, u8}
use wave.Ws.Mask.{Key, mask_apply}
use wave.Ws.Header.{Outcome, done, incomplete, invalid, decode_header}

-- `wput`: the buffer with the bytes, and the position behind them.
unfoldable pub wput : List ℕ × ℕ → List ℕ → Option (List ℕ × ℕ)
wput (out, pos) b =
    if ltb (length out) (pos + length b) then none else some (copy_at pos b out, pos + length b)

-- The length byte or bytes, with the mask bit.
unfoldable pub put_length : ℕ → List ℕ × ℕ → Option (List ℕ × ℕ)
unfolding wput
put_length n at =
    if ltb n 126
    then wput at (bit_or 0x80 (n % 256) ∷ [])
    else if ltb n 65536
    then (do at' ← wput at (bit_or 0x80 126 ∷ []); wput at' (be16 (n % 2 ^ 16)))
    else (do at' ← wput at (bit_or 0x80 127 ∷ []); wput at' (be64 n))

abbrev pub key_bytes : Key → List ℕ
key_bytes k = k.k0 ∷ k.k1 ∷ k.k2 ∷ k.k3 ∷ []

-- The end of `ws_frame`: the payload is copied and masked in place.
unfoldable pub put_payload : Bool → Key → List ℕ → List ℕ × ℕ → Option (ℕ × List ℕ)
put_payload big mask payload (out, p) =
    let n = length payload in
    let copied = copy_at p payload out in
    if ltb (length out) (p + n)
    then none
    else some (p + n, copy_at p (mask_apply big mask (slice copied p (p + n))) copied)

-- `ws_frame`; `big` is the byte order of the target.
unfoldable pub ws_frame : Bool → ℕ → List ℕ → Key → List ℕ → Option (ℕ × List ℕ)
unfolding put_length put_payload
ws_frame big opcode payload mask [] = none
ws_frame big opcode payload mask (x ∷ out) = do
  sized ← put_length (length payload) (bit_or 0x80 (bit_and opcode 0x0f) ∷ out, 1)
  keyed ← wput sized (key_bytes mask)
  put_payload big mask payload keyed

-- `WsFrame`
pub record Frame : Type 0 where
  pub fin : Bool
  pub opcode : ℕ
  pub masked : Bool
  pub payload_start : ℕ
  pub payload_end : ℕ
  pub total : ℕ

-- `ws_parse_frame_checked`; `usize_max` bounds what the target can address.
unfoldable pub parse_frame_checked : ℕ → List ℕ → Outcome Frame
parse_frame_checked usize_max buf = elim (decode_header buf) [
  | incomplete ↦ incomplete
  | invalid ↦ invalid
  | done h ↦
      let total = h.header_len + h.payload_len in
      if ltb usize_max h.payload_len || ltb usize_max total
      then invalid
      else if ltb (length buf) total
      then incomplete
      else done (record {
        fin = h.fin;
        opcode = h.opcode;
        masked = h.masked;
        payload_start = h.header_len;
        payload_end = total;
        total = total;
      })
]

-- `ws_parse_frame`
pub parse_frame : ℕ → List ℕ → Option Frame
unfolding parse_frame_checked
parse_frame usize_max buf = elim (parse_frame_checked usize_max buf) [ done f ↦ some f | _ ↦ none ]
