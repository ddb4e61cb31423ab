-- ===== src/Turn/Attributes.antt =====
-- The attributes of TURN, modules/common/turn_core.rs, over the writer and the reader of STUN.
use wave.Common.{
  ℕ, ◌+◌, ◌/◌, ◌^◌, ◌≤◌, ◌≡◌, ◌∙◌, ap, arith, false, not, ◌||◌, Option, none, some, if◌then◌else◌,
  List, [], ◌∷◌, ◌++◌, ltb, ◌!=◌, length, get_or, get_or-append_right, drop, replicate,
  length-append, append_assoc,
}
use wave.Common.Bytes.{IsU16, IsU32, u8, be32, from32, from32-bytes}
use wave.Stun.Message.{append_attribute, padded_len}
use wave.Stun.Message.Attributes.{attr_bytes, length-attr_bytes, append_attribute-written}
use wave.Stun.Message.Address.{Address, xor_value, parse_xor_mapped_address, address_written, reads}
use wave.Turn.{channel_number_is_valid}

abbrev pub attr_channel_number : ℕ
attr_channel_number = 0x000c

abbrev pub attr_lifetime : ℕ
attr_lifetime = 0x000d

abbrev pub attr_xor_peer_address : ℕ
attr_xor_peer_address = 0x0012

abbrev pub attr_data : ℕ
attr_data = 0x0013

abbrev pub attr_requested_transport : ℕ
attr_requested_transport = 0x0019

abbrev pub attr_dont_fragment : ℕ
attr_dont_fragment = 0x001a

unfoldable pub parse_lifetime : List ℕ → ℕ → ℕ → Option ℕ
parse_lifetime buf at len =
    if len != 4 || ltb (length buf) (at + 4)
    then none
    else some (
        from32 (get_or buf (at + 3) 0) (get_or buf (at + 2) 0) (get_or buf (at + 1) 0)
          (get_or buf (at + 0) 0))

unfoldable pub append_lifetime : ℕ → List ℕ → ℕ → Option (ℕ × List ℕ)
append_lifetime seconds out at = append_attribute attr_lifetime (be32 seconds) out at

unfoldable pub append_requested_transport : ℕ → List ℕ → ℕ → Option (ℕ × List ℕ)
append_requested_transport transport out at =
    append_attribute attr_requested_transport (transport ∷ 0 ∷ 0 ∷ 0 ∷ []) out at

unfoldable pub append_channel_number : ℕ → List ℕ → ℕ → Option (ℕ × List ℕ)
append_channel_number channel out at =
    if not (channel_number_is_valid channel)
    then none
    else append_attribute attr_channel_number (u8 (channel / 2 ^ 8) ∷ u8 channel ∷ 0 ∷ 0 ∷ []) out
        at

unfoldable pub append_dont_fragment : List ℕ → ℕ → Option (ℕ × List ℕ)
append_dont_fragment out at = append_attribute attr_dont_fragment [] out at

unfoldable pub append_xor_peer_address_v4 : List ℕ → ℕ → List ℕ → ℕ → Option (ℕ × List ℕ)
append_xor_peer_address_v4 addr port out at =
    append_attribute attr_xor_peer_address (xor_value addr port) out at

unfoldable pub append_data : List ℕ → List ℕ → ℕ → Option (ℕ × List ℕ)
append_data payload out at = append_attribute attr_data payload out at

unfoldable pub parse_xor_relayed_address : List ℕ → ℕ → ℕ → List ℕ → Option Address
parse_xor_relayed_address buf at len txn = parse_xor_mapped_address buf at len txn

parse_lifetime-value :
    (seconds : ℕ) (front rest : List ℕ)
    → IsU32 seconds
    → parse_lifetime (front ++ (be32 seconds ++ rest)) (length front) 4 ≡ some seconds
unfolding parse_lifetime
parse_lifetime-value seconds front rest h =
    let value = be32 seconds in
    let room : ltb (length (front ++ (value ++ rest))) (length front + 4) ≡ false =
      ground (arith, length-append front (value ++ rest)) in
    rw
      (
        room,
        get_or-append_right front (value ++ rest) 0 0,
        get_or-append_right front (value ++ rest) 1 0,
        get_or-append_right front (value ++ rest) 2 0,
        get_or-append_right front (value ++ rest) 3 0,
      )
      (ap some (from32-bytes seconds h))

-- Behind the first bytes of every buffer with twenty more, a lifetime of 32 bits is written, and behind it
-- the address of an IPv4 peer with a port of 16 bits. What is written parses to the lifetime, and to the
-- family, the address and the port of the peer.
pub parse_lifetime-append :
    (seconds a b c d port : ℕ) (pre dst txn : List ℕ)
    → IsU32 seconds
    → IsU16 port
    → length pre + 20 ≤ length dst
    → (first second : List ℕ) × (append_lifetime seconds (pre ++ drop (length pre) dst) (length pre)
        ≡ some (length (pre ++ first), pre ++ first ++ drop (length (pre ++ first)) dst))
      × (append_xor_peer_address_v4
            (a ∷ b ∷ c ∷ d ∷ [])
            port
            (pre ++ first ++ drop (length (pre ++ first)) dst)
            (length (pre ++ first))
          ≡ some (
            length (pre ++ first) + 12,
            pre ++ first ++ second ++ drop (length (pre ++ first) + 12) dst,
          ))
      × (parse_lifetime
            (pre ++ first ++ second ++ drop (length (pre ++ first) + 12) dst)
            (length pre + 4)
            4
          ≡ some seconds)
      × (parse_xor_relayed_address
            (pre ++ first ++ second ++ drop (length (pre ++ first) + 12) dst)
            (length (pre ++ first) + 4)
            8
            txn
          ≡ some (record { family = 1; addr = a ∷ b ∷ c ∷ d ∷ replicate 12 0; port = port }))
unfolding append_lifetime append_xor_peer_address_v4 parse_xor_relayed_address padded_len
parse_lifetime-append seconds a b c d port pre dst txn hs hp room =
    let first = attr_bytes attr_lifetime (be32 seconds) in
    let size : length first ≡ 8 = length-attr_bytes attr_lifetime (be32 seconds) in
    let both : length (pre ++ first) ≡ length pre + 8 = omega (arith, length-append pre first) in
    let (second, wrote, back) =
      address_written attr_xor_peer_address a b c d port (pre ++ first) dst txn hp (omega arith) in
    (
      first,
      second,
      append_attribute-written pre dst (be32 seconds) attr_lifetime (omega arith) (omega arith),
      wrote,
      ap (λ l. parse_lifetime l (length pre + 4) 4)
            (append_assoc (pre ++ first) second (drop (length (pre ++ first) + 12) dst))
          ∙ reads (λ buf at. parse_lifetime buf at 4) _ attr_lifetime pre (be32 seconds) _
              (λ front rest. parse_lifetime-value seconds front rest hs),
      back,
    )
