-- ===== src/Http/Block.antt =====
-- Header blocks: `decode_block` and `encode_header` of modules/foundation/http/wire/hpack.rs. The
-- headers handed to `sink` are collected in a list.
pub mod Table
pub mod Names
pub mod RoundTrip
pub mod Fuel
use wave.Common.{
  ℕ, zero, suc, ◌+◌, ◌-◌, ◌^◌, Bool, true, false, Option, none, some, ◌>>=◌, if◌then◌else◌, List,
  [], ◌∷◌, ◌++◌, ltb, leb, ◌==◌, ◌!=◌, ◌&&◌, bit_and, length, take, drop, slice, set, get_or,
}
use wave.Http.Integer.{decode_integer, encode_integer, decode_string, encode_string}
use wave.Http.Huffman.{huffman_decode}
use wave.Http.Block.Table.{Name, Value, static_entries}

abbrev pub nth_entry : List (Name × Value) → ℕ → Option (Name × Value)
nth_entry [] i = none
nth_entry (e ∷ es) zero = some e
nth_entry (e ∷ es) (suc i) = nth_entry es i

-- The 1-based table.
unfoldable pub static_lookup : ℕ → Option (Name × Value)
static_lookup zero = none
static_lookup (suc i) = nth_entry static_entries i

-- `HUFF_SCRATCH` and `HUFF_VALUE_SCRATCH`
abbrev pub huff_scratch : ℕ
huff_scratch = 256

abbrev pub huff_value_scratch : ℕ
huff_value_scratch = 2048

-- A string in the buffer, Huffman-decoded into `cap` bytes when it is flagged.
unfoldable pub plain : ℕ → Bool → List ℕ → Option (List ℕ)
plain cap true raw = huffman_decode cap raw
plain cap false raw = some raw

-- The name: its bytes, their flag, and the bytes of the representation up to it. A string whose length
-- wrapped is taken up to the end of the buffer, where the source reads on behind it.
unfoldable pub literal_name : ℕ → List ℕ → ℕ → Option (Name × Bool × ℕ)
literal_name usize_max buf prefix_bits = do
  (name_idx, n) ← decode_integer buf prefix_bits
  if name_idx == 0
      then (do
        (off, sl, total, h) ← decode_string usize_max (drop n buf)
        some (slice (drop n buf) off (off + sl), h, n + total))
      else (do (nm, v) ← static_lookup name_idx; some (nm, false, n))

-- `decode_literal` at the start of `buf`: the bytes consumed, and the header it sinks; one whose Huffman
-- code does not decode into the scratch buffers is dropped.
unfoldable pub decode_literal : ℕ → List ℕ → ℕ → Option (ℕ × List (Name × Value))
decode_literal usize_max buf prefix_bits = do
  (raw_name, name_huffman, consumed) ← literal_name usize_max buf prefix_bits
  (off, vl, total, val_huffman) ← decode_string usize_max (drop consumed buf)
  let header = (do
    name ← plain huff_scratch name_huffman raw_name
    value ← plain huff_value_scratch val_huffman (slice (drop consumed buf) off (off + vl))
    some (name, value)) in
      some (consumed + total, elim header [ none ↦ [] | some h ↦ h ∷ [] ])

unfoldable pub decode_indexed : List ℕ → Option (ℕ × List (Name × Value))
decode_indexed buf = do
  (idx, n) ← decode_integer buf 7
  header ← static_lookup idx
  some (n, header ∷ [])

unfoldable pub decode_resize : List ℕ → Option (ℕ × List (Name × Value))
decode_resize buf = do (sz, n) ← decode_integer buf 5; some (n, [])

-- One turn of the loop of `decode_block`, at a buffer that starts with `b`.
unfoldable pub decode_one : ℕ → ℕ → List ℕ → Option (ℕ × List (Name × Value))
decode_one usize_max b buf =
    if bit_and b 0x80 != 0
    then decode_indexed buf
    else if bit_and b 0xc0 == 0x40
    then decode_literal usize_max buf 6
    else if bit_and b 0xe0 == 0x20
    then decode_resize buf
    else decode_literal usize_max buf 4

-- How the loop stands: at the end of the block, stopped by an error, or with bytes left and no turns.
pub data Outcome : Type 0 where
  finished malformed unfinished : Outcome

-- The loop, for a number of turns: the headers that were sunk, and the outcome.
unfoldable pub decode_block : ℕ → ℕ → List ℕ → List (Name × Value) × Outcome
decode_block usize_max zero [] = ([], finished)
decode_block usize_max zero (b ∷ buf) = ([], unfinished)
decode_block usize_max (suc turns) [] = ([], finished)
decode_block usize_max (suc turns) (b ∷ buf) = elim (decode_one usize_max b (b ∷ buf)) [
  | none ↦ ([], malformed)
  | some r ↦
      let later = decode_block usize_max turns (drop r.0 (b ∷ buf)) in (r.1 ++ later.0, later.1)
]

unfoldable pub names_eq : List ℕ → List ℕ → Bool
names_eq [] [] = true
names_eq [] (y ∷ b) = false
names_eq (x ∷ a) [] = false
names_eq (x ∷ a) (y ∷ b) = x == y && names_eq a b

-- The loop of `static_name_index` over the entries from index `i` on.
unfoldable pub name_index_from : List (Name × Value) → ℕ → List ℕ → ℕ
name_index_from [] i name = 0
name_index_from ((nm, v) ∷ es) i name =
    let later = name_index_from es (i + 1) name in if names_eq nm name then i else later

unfoldable pub static_name_index : List ℕ → ℕ
static_name_index name = name_index_from static_entries 1 name

-- The part of `encode_header` up to the value.
unfoldable pub encode_name : List ℕ → List ℕ → Option (ℕ × List ℕ)
encode_name dst name =
    let idx = static_name_index name in
    if ltb 0 idx
    then encode_integer dst 0x00 4 idx
    else if ltb (length dst) 1
    then none
    else (do (n, written) ← encode_string (drop 1 dst) name; some (1 + n, 0x00 ∷ written))

unfoldable pub encode_header : List ℕ → List ℕ → List ℕ → Option (ℕ × List ℕ)
encode_header dst name value = do
  (o, named) ← encode_name dst name
  (n, written) ← encode_string (drop o named) value
  some (o + n, take o named ++ written)
