-- ===== src/Utf8.antt =====
-- modules/common/utf8_core.rs: the validation of UTF-8 byte strings.
pub mod Scalar
mod Runs
use wave.Common.{
  ℕ, zero, suc, Bool, true, false, ◌&&◌, ◌||◌, Option, none, some, List, [], ◌∷◌, leb, ◌==◌,
  if◌then◌else◌, length,
}

-- `(low..=high).contains(&b)`
abbrev pub within : ℕ → ℕ → ℕ → Bool
within low high b = leb low b && leb b high

-- A form of sequence: the number of bytes, and the range of the second one.
pub data Form : Type 0 where
  ascii two : Form
  three four : (low high : ℕ) → Form
  illegal : Form

-- The match on the first byte.
unfoldable pub form : ℕ → Form
form first =
    if leb first 0x7f
    then ascii
    else if within 0xc2 0xdf first
    then two
    else if first == 0xe0
    then three 0xa0 0xbf
    else if within 0xe1 0xec first || within 0xee 0xef first
    then three 0x80 0xbf
    else if first == 0xed
    then three 0x80 0x9f
    else if first == 0xf0
    then four 0x90 0xbf
    else if within 0xf1 0xf3 first
    then four 0x80 0xbf
    else if first == 0xf4
    then four 0x80 0x8f
    else illegal

-- One round of the loop: the bytes behind the first sequence, if it is legal.
unfoldable pub rest_of : Form → List ℕ → Option (List ℕ)
rest_of ascii bytes = some bytes
rest_of two (b ∷ bytes) = if within 0x80 0xbf b then some bytes else none
rest_of (three low high) (b ∷ c ∷ bytes) =
    if within low high b && within 0x80 0xbf c then some bytes else none
rest_of (four low high) (b ∷ c ∷ d ∷ bytes) =
    if within low high b && (within 0x80 0xbf c && within 0x80 0xbf d) then some bytes else none
rest_of _ bytes = none

-- The loop; each round takes at least one byte, so their number is enough rounds.
unfoldable pub valid_loop : ℕ → List ℕ → Bool
unfolding form rest_of
valid_loop rounds [] = true
valid_loop zero (first ∷ bytes) = false
valid_loop (suc rounds) (first ∷ bytes) = elim (rest_of (form first) bytes) [
  | none ↦ false
  | some rest ↦ valid_loop rounds rest
]

pub valid_utf8 : List ℕ → Bool
unfolding valid_loop
valid_utf8 bytes = valid_loop (length bytes) bytes
