-- ===== src/Turn/Runs.antt =====
-- Runs of the ChannelData framing, and its theorems at concrete inputs.
use wave.Common.{
  ℕ, ◌+◌, ◌≡◌, refl, arith, none, some, List, [], ◌∷◌, ◌++◌, drop, length, slice, replicate,
}
use wave.Turn.{
  channel_data, unrecognised, classify_relayed, write_channel_data, classify-write,
  channel_number_is_valid, channel_data_padded_len,
}
use wave.Turn.Attributes.{append_channel_number}

abbrev payload : List ℕ
payload = 10 ∷ 20 ∷ 30 ∷ []

abbrev room : List ℕ
room = replicate 8 7

classify-write_example :
    (bytes : List ℕ) × (write_channel_data 0x4001 payload room
      ≡ some (length bytes, bytes ++ drop (length bytes) room))
    × (classify_relayed (bytes ++ []) ≡ channel_data 0x4001 4 3)
    × (slice (bytes ++ []) 4 (4 + 3) ≡ payload)
unfolding channel_number_is_valid
classify-write_example = classify-write 0x4001 payload room [] refl (omega arith) (omega arith)

-- A Binding request without attributes, whose transaction identifier is zero.
abbrev request : List ℕ
request = 0 ∷ 1 ∷ 0 ∷ 0 ∷ 33 ∷ 18 ∷ 164 ∷ 66 ∷ replicate 12 0

written :
    write_channel_data 0x4001 payload room ≡ some (7, 0x40 ∷ 1 ∷ 0 ∷ 3 ∷ 10 ∷ 20 ∷ 30 ∷ 7 ∷ [])
unfolding write_channel_data channel_number_is_valid
written = refl

-- A number above the range, and a length that runs past the end.
reserved : write_channel_data 0x8000 payload room ≡ none
unfolding write_channel_data channel_number_is_valid
reserved = refl

truncated : classify_relayed (0x40 ∷ 1 ∷ 0 ∷ 3 ∷ 10 ∷ 20 ∷ []) ≡ unrecognised
unfolding classify_relayed channel_number_is_valid
truncated = refl

padded : channel_data_padded_len 3 ≡ 8
unfolding channel_data_padded_len
padded = refl

abbrev blank : List ℕ
blank = replicate 24 9

refused_channel : append_channel_number 0x3fff blank 0 ≡ none
unfolding append_channel_number channel_number_is_valid
refused_channel = refl
