-- ===== src/Stun/Message/Address.antt =====
-- The addresses and the error codes that attributes carry, modules/common/stun_core.rs. A reader is given
-- a span that the search found, which lies inside the buffer.
use wave.Common.{
  ℕ, ◌+◌, ◌-◌, ◌*◌, ◌/◌, ◌%◌, ◌^◌, ◌≤◌, ◌<◌, ◌≡◌, ◌∙◌, refl, ap, arith, not, ◌&&◌, ◌||◌, Option,
  none, some, if◌then◌else◌, List, [], ◌∷◌, ◌++◌, ltb, leb, ◌==◌, min, bit_and, bit_xor, length,
  get_or, get_or-append_right, ◌⊎◌, inl, inr, Bool-cases, length-take, slice, slice-append, take,
  drop, replicate, length-append, append_assoc,
}
use wave.Common.Bits.{bit_and-mask, bit_xor_twice, bit_xor-lt}
use wave.Common.Bytes.{IsU16, be16, be32, from16, from16-bytes}
use wave.Stun.Message.{magic, append_attribute, padded_len}
use wave.Stun.Message.Attributes.{
  attr_bytes, length-attr_bytes, padded_len-bounds, append_attribute-written,
}

abbrev pub attr_xor_mapped_address : ℕ
attr_xor_mapped_address = 0x0020

abbrev pub attr_error_code : ℕ
attr_error_code = 0x0009

abbrev pub family_ipv4 : ℕ
family_ipv4 = 1

abbrev pub family_ipv6 : ℕ
family_ipv6 = 2

-- `StunAddress`
pub record Address : Type 0 where
  pub family : ℕ
  pub addr : List ℕ
  pub port : ℕ

-- `addr[i] = bytes[i] ^ mask[i]`
unfoldable pub xor_bytes : List ℕ → List ℕ → List ℕ
xor_bytes [] mask = []
xor_bytes (b ∷ bytes) [] = []
xor_bytes (b ∷ bytes) (m ∷ mask) = bit_xor b m ∷ xor_bytes bytes mask

unfoldable pub parse_xor_mapped_address : List ℕ → ℕ → ℕ → List ℕ → Option Address
parse_xor_mapped_address buf at len txn =
    let family = get_or buf (at + 1) 0 in
    let port = bit_xor (from16 (get_or buf (at + 3) 0) (get_or buf (at + 2) 0)) (magic / 2 ^ 16) in
    if ltb len 4
    then none
    else if family == family_ipv4
    then if ltb len 8
      then none
      else some (record {
        family = family;
        addr = xor_bytes (slice buf (at + 4) (at + 8)) (be32 magic) ++ replicate 12 0;
        port = port;
      })
    else if family == family_ipv6
    then if ltb len 20
      then none
      else some (record {
        family = family;
        addr = xor_bytes (slice buf (at + 4) (at + 20)) (be32 magic ++ txn);
        port = port;
      })
    else none

unfoldable pub parse_mapped_address : List ℕ → ℕ → ℕ → Option Address
parse_mapped_address buf at len =
    let family = get_or buf (at + 1) 0 in
    let port = from16 (get_or buf (at + 3) 0) (get_or buf (at + 2) 0) in
    let count = if family == family_ipv6 then 16 else 4 in
    if ltb len 8
    then none
    else if ltb len (4 + count)
    then none
    else some (record {
      family = family;
      addr = slice buf (at + 4) (at + 4 + count) ++ replicate (16 - count) 0;
      port = port;
    })

-- The value of an address that is written under the cookie.
abbrev pub xor_value : List ℕ → ℕ → List ℕ
xor_value addr port =
    0 ∷ family_ipv4 ∷ be16 (bit_xor port (magic / 2 ^ 16)) ++ xor_bytes addr (be32 magic)

unfoldable pub append_xor_mapped_address_v4 : List ℕ → ℕ → List ℕ → ℕ → Option (ℕ × List ℕ)
append_xor_mapped_address_v4 addr port out at =
    append_attribute attr_xor_mapped_address (xor_value addr port) out at

unfoldable pub append_error_code : ℕ → List ℕ → List ℕ → ℕ → Option (ℕ × List ℕ)
append_error_code code reason out at =
    if not (leb 300 code && ltb code 700)
    then none
    else append_attribute attr_error_code
        (0 ∷ 0 ∷ code / 100 ∷ code % 100 ∷ take (min (length reason) 64) reason) out at

unfoldable pub parse_error_code : List ℕ → ℕ → ℕ → Option ℕ
parse_error_code buf at len =
    let class = bit_and (get_or buf (at + 2) 0) 0x07 in
    let number = get_or buf (at + 3) 0 in
    if ltb len 4
    then none
    else if not (leb 3 class && ltb class 7) || ltb 99 number
    then none
    else some (class * 100 + number)

parse_xor-value :
    (a b c d port : ℕ) (pre rest txn : List ℕ)
    → IsU16 port
    → parse_xor_mapped_address
        (pre ++ (xor_value (a ∷ b ∷ c ∷ d ∷ []) port ++ rest))
        (length pre)
        8
        txn
      ≡ some (record { family = 1; addr = a ∷ b ∷ c ∷ d ∷ replicate 12 0; port = port })
unfolding parse_xor_mapped_address xor_bytes
parse_xor-value a b c d port pre rest txn hp =
    let addr = a ∷ b ∷ c ∷ d ∷ [] in
    let key = magic / 2 ^ 16 in
    let masked = xor_bytes addr (be32 magic) in
    let head = 0 ∷ 1 ∷ be16 (bit_xor port key) in
    let value = xor_value addr port in
    let small : bit_xor port key < 2 ^ 16 = bit_xor-lt 16 port key hp (omega arith) in
    let e : length pre + 4 ≡ length (pre ++ head) = omega (arith, length-append pre head) in
    let span : slice (pre ++ (value ++ rest)) (length pre + 4) (length pre + 8) ≡ masked =
      ap (λ l. slice l (length pre + 4) (length pre + 8)) (simp append_assoc refl)
      ∙ slice-append (pre ++ head) masked rest (length pre + 4) (length pre + 8) e (omega arith) in
    rw
      (
        get_or-append_right pre (value ++ rest) 1 0,
        get_or-append_right pre (value ++ rest) 2 0,
        get_or-append_right pre (value ++ rest) 3 0,
        span,
        from16-bytes (bit_xor port key) small,
        bit_xor_twice port key,
      )
      (rw (bit_xor_twice a 0x21, bit_xor_twice b 0x12, bit_xor_twice c 0xa4, bit_xor_twice d 0x42)
        refl)

-- A reader that works on a value behind anything reads it behind the type and the length of its attribute.
pub reads :
    {A : Type 0} (read : List ℕ → ℕ → A) (result : A) (typ : ℕ) (pre value tail : List ℕ)
    → ((front rest : List ℕ) → read (front ++ (value ++ rest)) (length front) ≡ result)
    → read ((pre ++ attr_bytes typ value) ++ tail) (length pre + 4) ≡ result
unfolding attr_bytes
reads read result typ pre value tail h =
    let zeros : List ℕ = replicate (padded_len (length value) - length value) 0 in
    let front = pre ++ (be16 typ ++ be16 (length value)) in
    let e : length pre + 4 ≡ length front =
      omega (arith, length-append pre (be16 typ ++ be16 (length value))) in
    ap (λ l. read l (length pre + 4)) (simp append_assoc refl)
    ∙ ap (read (front ++ (value ++ (zeros ++ tail)))) e
    ∙ h front (zeros ++ tail)

-- An attribute whose value is an address under the cookie.
pub address_written :
    (typ a b c d port : ℕ) (pre dst txn : List ℕ)
    → IsU16 port
    → length pre + 12 ≤ length dst
    → (written : List ℕ) × (append_attribute typ
          (xor_value (a ∷ b ∷ c ∷ d ∷ []) port)
          (pre ++ drop (length pre) dst)
          (length pre)
        ≡ some (length pre + 12, pre ++ written ++ drop (length pre + 12) dst))
      × (parse_xor_mapped_address
            (pre ++ written ++ drop (length pre + 12) dst)
            (length pre + 4)
            8
            txn
          ≡ some (record { family = 1; addr = a ∷ b ∷ c ∷ d ∷ replicate 12 0; port = port }))
unfolding xor_bytes padded_len
address_written typ a b c d port pre dst txn hp room =
    let value = xor_value (a ∷ b ∷ c ∷ d ∷ []) port in
    let ab = attr_bytes typ value in
    let size : length ab ≡ 12 = length-attr_bytes typ value in
    let end : length (pre ++ ab) ≡ length pre + 12 = omega (arith, length-append pre ab) in
    let tail = drop (length pre + 12) dst in
    (
      ab,
      append_attribute-written pre dst value typ (omega arith) (omega arith) ∙ rw end refl,
      reads (λ buf at. parse_xor_mapped_address buf at 8 txn) _ typ pre value tail
          (λ front rest. parse_xor-value a b c d port front rest txn hp),
    )

-- The address of an IPv4 peer with a port of 16 bits is written behind the first bytes of every buffer with
-- twelve more, and the value that is written parses to that family, address and port.
parse_xor_mapped_address-append :
    (a b c d port : ℕ) (pre dst txn : List ℕ)
    → IsU16 port
    → length pre + 12 ≤ length dst
    → (written : List ℕ) × (append_xor_mapped_address_v4
          (a ∷ b ∷ c ∷ d ∷ [])
          port
          (pre ++ drop (length pre) dst)
          (length pre)
        ≡ some (length pre + 12, pre ++ written ++ drop (length pre + 12) dst))
      × (parse_xor_mapped_address
            (pre ++ written ++ drop (length pre + 12) dst)
            (length pre + 4)
            8
            txn
          ≡ some (record { family = 1; addr = a ∷ b ∷ c ∷ d ∷ replicate 12 0; port = port }))
unfolding append_xor_mapped_address_v4
parse_xor_mapped_address-append a b c d port pre dst txn hp room =
    address_written attr_xor_mapped_address a b c d port pre dst txn hp room

-- The reason as it is sent, cut to 64 bytes.
abbrev pub error_value : ℕ → List ℕ → List ℕ
error_value code reason = 0 ∷ 0 ∷ code / 100 ∷ code % 100 ∷ take (min (length reason) 64) reason

low_bits : (n : ℕ) → n < 8 → bit_and n 0x07 ≡ n
low_bits n h = bit_and-mask 3 n ∙ omega arith

parse_error-value :
    (code : ℕ) (reason front rest : List ℕ)
    → 300 ≤ code
    → code < 700
    → parse_error_code
        (front ++ (error_value code reason ++ rest))
        (length front)
        (length (error_value code reason))
      ≡ some code
unfolding parse_error_code
parse_error-value code reason front rest low high =
    let value = error_value code reason in
    let class : bit_and (code / 100) 0x07 ≡ code / 100 = low_bits (code / 100) (omega arith) in
    let whole : code / 100 * 100 + code % 100 ≡ code = omega arith in
    rw
      (get_or-append_right front (value ++ rest) 2 0, get_or-append_right front (value ++ rest) 3 0)
      (rw class (ground (arith, whole)))

-- A code outside 300 to 699 is refused. Any other is written, behind the first bytes of every buffer
-- with room for 72 more, and the value that is written parses to the code, whatever the reason.
pub parse_error_code-append :
    (code : ℕ) (reason pre dst : List ℕ)
    → length pre + 72 ≤ length dst
    → (300 ≤ code)
        × (code < 700)
        × ((written : List ℕ) × (append_error_code code reason
                (pre ++ drop (length pre) dst)
                (length pre)
              ≡ some
                  (length (pre ++ written), pre ++ written ++ drop (length (pre ++ written)) dst))
            × (parse_error_code
                  (pre ++ written ++ drop (length (pre ++ written)) dst)
                  (length pre + 4)
                  (length (error_value code reason))
                ≡ some code))
      ⊎ ((code < 300) ⊎ (700 ≤ code))
        × (append_error_code code reason (pre ++ drop (length pre) dst) (length pre) ≡ none)
unfolding append_error_code
parse_error_code-append code reason pre dst room =
    let value = error_value code reason in
    let size : length value ≤ 68 = omega (arith, length-take (min (length reason) 64) reason) in
    let total = length-attr_bytes attr_error_code value in
    elim (Bool-cases (leb 300 code && ltb code 700)) [
      | inl valid ↦
          let (low, high) : (300 ≤ code) × (code < 700) = ground arith in
          inl (
            low,
            high,
            (
              attr_bytes attr_error_code value,
              rw valid (
                  append_attribute-written pre dst value attr_error_code (omega arith)
                    (omega (arith, padded_len-bounds (length value)))),
              reads (λ buf at. parse_error_code buf at (length value)) _ attr_error_code pre value _
                  (λ front rest. parse_error-value code reason front rest low high),
            ),
          )
      | inr refused ↦ inr (ground arith, rw refused refl)
    ]
