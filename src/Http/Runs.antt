-- ===== src/Http/Runs.antt =====
-- Frames, integers and header blocks at concrete inputs.
use wave.Common.{
  ℕ, ◌+◌, ◌≤◌, ◌≡◌, ◌≢◌, ◌↔◌, refl, arith, none, false, some, List, [], ◌∷◌, ◌++◌, length, drop,
  slice, replicate, All,
}
use wave.Common.Bytes.{IsByte}
use wave.Http.Frame.{parse_header}
use wave.Http.Frame.Writers.{
  window_update, write_frame, payload_of, header_of, IsFrame, write_frame_lem,
}
use wave.Http.Extent.{headers_block_extent, pad_part, priority_part}
use wave.Http.Integer.{decode_string, decode_integer, decode_rest}
use wave.Http.Huffman.Table.{huff}
use wave.Http.Huffman.{
  huffman_decode, take_bytes, take_bits, take_bit, find_symbol, on_symbol, finish,
}
use wave.Http.Huffman.Sound.{Encodes, huffman_decode_iff}
use wave.Http.Block.{unfinished, encode_header, decode_block}
use wave.Http.Block.RoundTrip.{decode_block-encode}
use wave.Http.Block.Fuel.{decode_block_fuel}

abbrev room : List ℕ
room = replicate 40 7

write_frame_lem_example :
    (n : ℕ) × (written : List ℕ) × (write_frame room (window_update 5 1000) ≡ (n, written))
    × (n ≡ 9 + length (payload_of (window_update 5 1000)))
    × (parse_header written ≡ some (header_of (window_update 5 1000)))
    × (slice written 9 n ≡ payload_of (window_update 5 1000))
    × (drop n written ≡ drop n room)
unfolding IsFrame payload_of
write_frame_lem_example = write_frame_lem (window_update 5 1000) room (omega arith) (omega arith)

-- Two bytes of padding and the priority fields around a block of one byte.
abbrev padded : List ℕ
padded = 2 ∷ 0 ∷ 0 ∷ 0 ∷ 0 ∷ 9 ∷ 0x82 ∷ 0 ∷ 0 ∷ []

padded_block : headers_block_extent padded 0x28 ≡ some (6, 1)
unfolding headers_block_extent pad_part priority_part
padded_block = refl

read_1337 : decode_integer (31 ∷ 154 ∷ 10 ∷ 99 ∷ []) 5 ≡ some (1337, 3)
unfolding decode_integer decode_rest
read_1337 = refl

-- The encoding of 2^32 + 127 is read as 127.
read_wrapped : decode_integer (127 ∷ 128 ∷ 128 ∷ 128 ∷ 128 ∷ 16 ∷ []) 7 ≡ some (127, 6)
unfolding decode_integer decode_rest
read_wrapped = refl

-- A length of 2^32 - 1 behind six bytes: the sum wraps to 5 where addresses have 32 bits, so a string that
-- reaches far behind the buffer is admitted, and refused where they have 64.
abbrev overlong : List ℕ
overlong = 127 ∷ 128 ∷ 255 ∷ 255 ∷ 255 ∷ 15 ∷ []

read_past_end :
    (decode_string 4294967295 overlong ≡ some (6, 4294967295, 5, false))
    × (decode_string 18446744073709551615 overlong ≡ none)
unfolding decode_string decode_integer decode_rest
read_past_end = (refl, refl)

abbrev hello : List ℕ
hello = 104 ∷ 101 ∷ 108 ∷ 108 ∷ 111 ∷ []

-- `www`: three codes of seven bits and three ones.
huffman_decode_iff_example :
    (huffman_decode 8 (0xf1 ∷ 0xe3 ∷ 0xc7 ∷ []) ≡ some (119 ∷ 119 ∷ 119 ∷ [])) ↔ (
      All IsByte (119 ∷ 119 ∷ 119 ∷ [])
      × (3 ≤ 8)
      × Encodes (0xf1 ∷ 0xe3 ∷ 0xc7 ∷ []) (119 ∷ 119 ∷ 119 ∷ []))
huffman_decode_iff_example = huffman_decode_iff 8 (0xf1 ∷ 0xe3 ∷ 0xc7 ∷ []) (119 ∷ 119 ∷ 119 ∷ [])

www : huffman_decode 8 (0xf1 ∷ 0xe3 ∷ 0xc7 ∷ []) ≡ some (119 ∷ 119 ∷ 119 ∷ [])
unfolding huffman_decode take_bytes take_bits take_bit find_symbol on_symbol finish huff
www = refl

decode_block-encode_example :
    (bytes : List ℕ) × (encode_header room hello hello
      ≡ some (length bytes, bytes ++ drop (length bytes) room))
    × (decode_block 4294967295 4 (bytes ++ 0x82 ∷ []) ≡ (
      (hello, hello) ∷ (decode_block 4294967295 3 (0x82 ∷ [])).0,
      (decode_block 4294967295 3 (0x82 ∷ [])).1,
    ))
decode_block-encode_example =
    decode_block-encode 4294967295 room hello hello (0x82 ∷ []) 3 (omega arith) (omega arith)
      (omega arith) (omega arith)

decode_block_fuel_example :
    ((decode_block 4294967295 2 (0x82 ∷ 0x84 ∷ [])).1 ≢ unfinished)
    × (decode_block 4294967295 2 (0x82 ∷ 0x84 ∷ []) ≡ decode_block 4294967295 9 (0x82 ∷ 0x84 ∷ []))
decode_block_fuel_example =
    decode_block_fuel 4294967295 2 9 (0x82 ∷ 0x84 ∷ []) (omega arith) (omega arith)
