-- ===== src/Utf8/Runs.antt =====
-- Runs of the validation, and its theorem at a concrete input.
use wave.Common.{ℕ, ◌≡◌, ◌↔◌, refl, true, false, List, [], ◌∷◌, All}
use wave.Utf8.{form, rest_of, valid_loop, valid_utf8}
use wave.Utf8.Scalar.{IsScalar, encode_all, valid_utf8_iff}

-- `é€😀`, an overlong slash, and a surrogate.
abbrev text : List ℕ
text = 0xc3 ∷ 0xa9 ∷ 0xe2 ∷ 0x82 ∷ 0xac ∷ 0xf0 ∷ 0x9f ∷ 0x98 ∷ 0x80 ∷ []

text_valid : valid_utf8 text ≡ true
unfolding valid_utf8 valid_loop form rest_of
text_valid = refl

overlong : valid_utf8 (0xc0 ∷ 0xaf ∷ []) ≡ false
unfolding valid_utf8 valid_loop form rest_of
overlong = refl

surrogate : valid_utf8 (0xed ∷ 0xa0 ∷ 0x80 ∷ []) ≡ false
unfolding valid_utf8 valid_loop form rest_of
surrogate = refl

valid_utf8_iff_example :
    (valid_utf8 text ≡ true) ↔ ((xs : List ℕ) × All IsScalar xs × (text ≡ encode_all xs))
valid_utf8_iff_example = valid_utf8_iff text
