-- ===== src/Ws/Header.antt =====
-- `ws_decode_header` of modules/common/ws_frame_core.rs.
pub mod Sound
use wave.Common.{
  ℕ, zero, suc, ◌+◌, ◌-◌, ◌*◌, ◌/◌, ◌%◌, ◌^◌, ◌<◌, Bool, true, false, not, ◌&&◌, ◌||◌,
  if◌then◌else◌, List, [], ◌∷◌, ◌++◌, ltb, leb, ◌==◌, ◌!=◌, bit_and, length, get_or,
}
use wave.Common.Bytes.{from16, from64}
use wave.Ws.Mask.{Key}

-- `WS_OP_CONTINUATION` to `WS_OP_PONG`
abbrev pub op_continuation : ℕ
op_continuation = 0x0

abbrev pub op_text : ℕ
op_text = 0x1

abbrev pub op_binary : ℕ
op_binary = 0x2

abbrev pub op_close : ℕ
op_close = 0x8

abbrev pub op_ping : ℕ
op_ping = 0x9

abbrev pub op_pong : ℕ
op_pong = 0xa

unfoldable pub is_control_opcode : ℕ → Bool
is_control_opcode op = leb 0x8 op

unfoldable pub is_valid_opcode : ℕ → Bool
is_valid_opcode op =
    op == op_continuation
    || (op == op_text || (op == op_binary || (op == op_close || (op == op_ping || op == op_pong))))

-- `WsHeader`
pub record Header : Type 0 where
  pub fin : Bool
  pub opcode : ℕ
  pub masked : Bool
  pub mask_key : Key
  pub header_len : ℕ
  pub payload_len : ℕ

-- The three outcomes of `WsHeaderParse` and `WsFrameParse`.
pub data Outcome {ℓ} (A : Type ℓ) : Type ℓ where
  done : A → Outcome A
  incomplete : Outcome A
  invalid : Outcome A

-- Early returns leave the chain.
infixl 5 ◌>>=◌
abbrev pub ◌>>=◌ {ℓ κ} : {A : Type ℓ} {B : Type κ} → Outcome A → (A → Outcome B) → Outcome B
done a >>= f = f a
incomplete >>= f = incomplete
invalid >>= f = invalid

-- `match len7`: the length of the header without its key, and the payload's length.
unfoldable pub lengths : ℕ → List ℕ → Outcome (ℕ × ℕ)
lengths len7 buf =
    let at = λ (i : ℕ). get_or buf i 0 in
    let n = from16 (at 3) (at 2) in
    let v = from64 (at 9) (at 8) (at 7) (at 6) (at 5) (at 4) (at 3) (at 2) in
    if len7 == 126
    then if ltb (length buf) 4 then incomplete else if ltb n 126 then invalid else done (4, n)
    else if len7 == 127
    then if ltb (length buf) 10
      then incomplete
      else if bit_and v (2 ^ 63) != 0 || leb v 65535
      then invalid
      else done (10, v)
    else done (2, len7)

abbrev pub zero_key : Key
zero_key = record { k0 = 0; k1 = 0; k2 = 0; k3 = 0 }

-- The key, and the length of the header with it.
unfoldable pub mask_part : Bool → ℕ → List ℕ → Outcome (Key × ℕ)
mask_part masked header_len buf =
    let at = λ (i : ℕ). get_or buf (header_len + i) 0 in
    let need = header_len + 4 in
    if masked
    then if ltb (length buf) need
      then incomplete
      else done (record { k0 = at 0; k1 = at 1; k2 = at 2; k3 = at 3 }, need)
    else done (zero_key, header_len)

-- The checks on the first two bytes, in the code's order.
unfoldable pub is_illegal : ℕ → ℕ → Bool
unfolding is_valid_opcode is_control_opcode
is_illegal b0 b1 =
    bit_and b0 0x70 != 0
    || (not (is_valid_opcode (bit_and b0 0x0f))
        || (is_control_opcode (bit_and b0 0x0f)
            && (not (bit_and b0 0x80 != 0) || ltb 125 (bit_and b1 0x7f))))

unfoldable pub decode_two : ℕ → ℕ → List ℕ → Outcome Header
decode_two b0 b1 buf = if is_illegal b0 b1 then invalid else do
  (plain_len, payload_len) ← lengths (bit_and b1 0x7f) buf
  (mask_key, header_len) ← mask_part (bit_and b1 0x80 != 0) plain_len buf
  if leb (2 ^ 64) (header_len + payload_len)
      then invalid
      else done (record {
        fin = bit_and b0 0x80 != 0;
        opcode = bit_and b0 0x0f;
        masked = bit_and b1 0x80 != 0;
        mask_key = mask_key;
        header_len = header_len;
        payload_len = payload_len;
      })

unfoldable pub decode_header : List ℕ → Outcome Header
decode_header [] = incomplete
decode_header (b0 ∷ []) = incomplete
decode_header (b0 ∷ b1 ∷ rest) = decode_two b0 b1 (b0 ∷ b1 ∷ rest)
