-- ===== src/Stun/Message.antt =====
-- The STUN header and its attributes, modules/common/stun_core.rs.
pub mod Types
pub mod Attributes
pub mod Unknown
pub mod Address
pub mod RoundTrip
use wave.Common.{
  ℕ, zero, suc, ◌+◌, ◌-◌, ◌*◌, ◌/◌, ◌%◌, ◌^◌, Bool, true, false, not, ◌||◌, Option, none, some,
  ◌>>=◌, if◌then◌else◌, List, [], ◌∷◌, ◌++◌, ltb, leb, ◌==◌, ◌!=◌, bit_and, bit_or, length, get_or,
  slice, copy_at, replicate,
}
use wave.Common.Bytes.{be16, be32, from16, from32}

abbrev pub header_len : ℕ
header_len = 20

-- `STUN_MAGIC`
abbrev pub magic : ℕ
magic = 0x2112a442

-- `StunHeader`
pub record Header : Type 0 where
  pub class : ℕ
  pub method : ℕ
  pub length : ℕ
  pub txn : List ℕ

unfoldable pub is_plausible : List ℕ → Bool
is_plausible buf =
    let at = λ (i : ℕ). get_or buf i 0 in
    not (
      ltb (length buf) header_len
      || (bit_and (at 0) 0xc0 != 0 || from32 (at 7) (at 6) (at 5) (at 4) != magic))

-- The class and the method in a type field.
unfoldable pub class_of : ℕ → ℕ
class_of typ = bit_or (bit_and (typ / 2 ^ 7) 0x02) (bit_and (typ / 2 ^ 4) 0x01)

unfoldable pub method_of : ℕ → ℕ
method_of typ =
    bit_or (bit_or (bit_and typ 0x000f) (bit_and (typ / 2) 0x0070)) (bit_and (typ / 2 ^ 2) 0x0f80)

unfoldable pub parse_header : List ℕ → Option Header
parse_header buf =
    let typ = from16 (get_or buf 1 0) (get_or buf 0 0) in
    let len = from16 (get_or buf 3 0) (get_or buf 2 0) in
    if not (is_plausible buf)
    then none
    else if len % 4 != 0 || ltb (length buf) (header_len + len)
    then none
    else some (record {
      class = class_of typ;
      method = method_of typ;
      length = len;
      txn = slice buf 8 20;
    })

unfoldable pub message_type : ℕ → ℕ → ℕ
message_type class method =
    bit_or
      (bit_or
        (bit_or (bit_or (bit_and method 0x000f) (bit_and method 0x0070 * 2))
          (bit_and method 0x0f80 * 2 ^ 2))
        (bit_and class 0x01 * 2 ^ 4))
      (bit_and class 0x02 * 2 ^ 7)

-- `AttrScan`
pub data Scan : Type 0 where
  attr : ℕ → ℕ → ℕ → ℕ → Scan
  end_of_section : Scan
  malformed : Scan

-- `(len + 3) & !3`
unfoldable pub padded_len : ℕ → ℕ
padded_len len = (len + 3) / 4 * 4

unfoldable pub next_attribute : List ℕ → ℕ → ℕ → Scan
next_attribute buf at total =
    let typ = from16 (get_or buf (at + 1) 0) (get_or buf (at + 0) 0) in
    let len = from16 (get_or buf (at + 3) 0) (get_or buf (at + 2) 0) in
    let value_at = at + 4 in
    let end = value_at + len in
    let next = value_at + padded_len len in
    if leb total at
    then end_of_section
    else if ltb total (at + 4)
    then malformed
    else if ltb total end
    then malformed
    else if ltb total next
    then if end == total then attr typ value_at len total else malformed
    else attr typ value_at len next

-- The loop of `find_attribute`.
unfoldable pub find_from : ℕ → List ℕ → ℕ → ℕ → ℕ → Option (ℕ × ℕ)
find_from zero buf typ at total = none
find_from (suc fuel) buf typ at total = elim (next_attribute buf at total) [
  | end_of_section ↦ none
  | malformed ↦ none
  | attr found value_at len next ↦
      let later = find_from fuel buf typ next total in
      if found == typ then some (value_at, len) else later
]

-- One round for every byte of the section is enough, since an attribute has four or more.
unfoldable pub find_attribute : List ℕ → Header → ℕ → Option (ℕ × ℕ)
find_attribute buf header typ =
    let total = header_len + header.length in find_from (suc header.length) buf typ header_len total

unfoldable pub is_comprehension_required : ℕ → Bool
is_comprehension_required typ = ltb typ 0x8000

unfoldable pub contains : List ℕ → ℕ → Bool
contains [] typ = false
contains (k ∷ known) typ = k == typ || contains known typ

-- The loop of `first_unknown_required`.
unfoldable pub unknown_from : ℕ → List ℕ → List ℕ → ℕ → ℕ → Option ℕ
unknown_from zero buf known at total = none
unknown_from (suc fuel) buf known at total = elim (next_attribute buf at total) [
  | end_of_section ↦ none
  | malformed ↦ none
  | attr typ value_at len next ↦
      let later = unknown_from fuel buf known next total in
      if is_comprehension_required typ
      then if contains known typ then later else some typ
      else later
]

unfoldable pub first_unknown_required : List ℕ → Header → List ℕ → Option ℕ
first_unknown_required buf header known =
    unknown_from (suc header.length) buf known header_len (header_len + header.length)

unfoldable pub write_header : ℕ → ℕ → List ℕ → List ℕ → Option (ℕ × List ℕ)
write_header class method txn out =
    if ltb (length out) header_len
    then none
    else some (
      header_len,
      copy_at 8 txn (
          copy_at 4 (be32 magic)
            (copy_at 2 (be16 0) (copy_at 0 (be16 (message_type class method)) out))),
    )

unfoldable pub set_length : List ℕ → ℕ → Option (List ℕ)
set_length out total =
    if ltb total header_len
    then none
    else if ltb 65535 (total - header_len) || ltb (length out) header_len
    then none
    else some (copy_at 2 (be16 (total - header_len)) out)

unfoldable pub append_attribute : ℕ → List ℕ → List ℕ → ℕ → Option (ℕ × List ℕ)
append_attribute typ value out at =
    let end = at + 4 + padded_len (length value) in
    if ltb (length out) end || ltb 65535 (length value)
    then none
    else some (
      end,
      copy_at (at + 4 + length value) (replicate (padded_len (length value) - length value) 0) (
          copy_at (at + 4) value
            (copy_at (at + 2) (be16 (length value)) (copy_at at (be16 typ) out))),
    )
