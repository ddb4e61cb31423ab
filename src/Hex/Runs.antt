-- ===== src/Hex/Runs.antt =====
-- Runs of the hexadecimal codec, and its theorems at concrete inputs.
use wave.Common.{◌≡◌, refl, none, some, [], ◌∷◌}
use wave.Hex.{nibble, decode_loop, decode}

-- `DeAD` in either case, then a digit that is none, and an odd number of digits.
mixed_case :
    decode (0x44 ∷ 0x65 ∷ 0x41 ∷ 0x44 ∷ []) (0 ∷ 0 ∷ 7 ∷ []) ≡ some (2, 0xde ∷ 0xad ∷ 7 ∷ [])
unfolding decode decode_loop nibble
mixed_case = refl

no_digit : decode (0x44 ∷ 0x67 ∷ []) (0 ∷ []) ≡ none
unfolding decode decode_loop nibble
no_digit = refl

odd_length : decode (0x44 ∷ []) (0 ∷ []) ≡ none
unfolding decode decode_loop nibble
odd_length = refl
