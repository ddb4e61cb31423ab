-- ===== src/Stun/Runs.antt =====
-- Runs of the client transaction and the result record, and their theorems at concrete inputs.
use wave.Common.{
  ℕ, ◌+◌, ◌-◌, ◌*◌, ◌^◌, ◌≡◌, refl, arith, some, List, [], ◌∷◌, drop, ltb, ◌++◌, length, replicate,
  if◌then◌else◌, ◌≤◌, ◌<◌, ◌⊎◌, none,
}
use wave.Stun.Txn.{send, wait, begin, poll, sent_at, interval_ms}
use wave.Stun.Message.{
  Header, padded_len, parse_header, find_attribute, append_attribute, first_unknown_required,
  is_comprehension_required, contains,
}
use wave.Stun.Message.Unknown.{first_unknown}
use wave.Stun.Message.Attributes.{Attrs, attr_bytes, section_bytes, first_value, bytes_at}
use wave.Stun.Message.RoundTrip.{compose, parse-compose}
use wave.Stun.Message.Address.{
  append_xor_mapped_address_v4, parse_xor_mapped_address, append_error_code, parse_error_code,
  error_value, parse_error_code-append, parse_mapped_address, xor_bytes,
}
use wave.Stun.Txn.Schedule.{unanswered, schedule}

abbrev id : List ℕ
id = 1 ∷ 2 ∷ 3 ∷ 4 ∷ 5 ∷ 6 ∷ 7 ∷ 8 ∷ 9 ∷ 10 ∷ 11 ∷ 12 ∷ []

third_due : (unanswered 3 (begin id 1000)).due_ms ≡ 4500
unfolding unanswered begin sent_at interval_ms
third_due = refl

schedule_example :
    poll (unanswered 2 (begin id 1000)) 2500
    ≡ (if ltb 2500 (1000 + (2 ^ 2 - 1) * 500) then wait else send 3)
schedule_example = schedule id 1000 2 2500 (omega arith) (omega arith)

abbrev room : List ℕ
room = 0 ∷ 0 ∷ 0 ∷ 0 ∷ 0 ∷ 0 ∷ 0 ∷ 0 ∷ 0 ∷ 99 ∷ []

-- A Binding request with a user name and a priority.
abbrev attrs : Attrs
attrs = (0x0006, 97 ∷ 58 ∷ 98 ∷ []) ∷ (0x0024, 0 ∷ 0 ∷ 1 ∷ 0 ∷ []) ∷ []

abbrev blank : List ℕ
blank = replicate 40 0

parse-compose_example :
    (bytes : List ℕ) × (h : Header) × (compose 0 1 id attrs blank
      ≡ some (length bytes, bytes ++ drop (length bytes) blank))
    × (parse_header (bytes ++ []) ≡ some h)
    × (h ≡ record { class = 0; method = 1; length = length (section_bytes attrs); txn = id })
    × (bytes_at (bytes ++ []) (find_attribute (bytes ++ []) h 0x0024) ≡ first_value attrs 0x0024)
    × (first_unknown_required (bytes ++ []) h (0x0006 ∷ []) ≡ some 0x0024)
unfolding section_bytes attr_bytes padded_len first_unknown is_comprehension_required contains
parse-compose_example =
    parse-compose 0 1 0x0024 id blank [] (0x0006 ∷ []) attrs (omega arith) (omega arith) refl
      ((omega arith, omega arith), ((omega arith, omega arith), tt)) (omega arith) (omega arith)

-- An address is written under the cookie.
masked :
    append_xor_mapped_address_v4 (192 ∷ 0 ∷ 2 ∷ 1 ∷ []) 32853 blank 0
    ≡ some (12, 0 ∷ 32 ∷ 0 ∷ 8 ∷ 0 ∷ 1 ∷ 0xa1 ∷ 0x47 ∷ 0xe1 ∷ 0x12 ∷ 0xa6 ∷ 0x43 ∷ replicate 28 0)
unfolding append_xor_mapped_address_v4 append_attribute padded_len xor_bytes
masked = refl

abbrev wide : List ℕ
wide = replicate 80 0

parse_error_code-append_example :
    (300 ≤ 401)
      × (401 < 700)
      × ((written : List ℕ) × (append_error_code 401 (78 ∷ 111 ∷ []) wide 0
            ≡ some (length written, written ++ drop (length written) wide))
          × (parse_error_code
                (written ++ drop (length written) wide)
                4
                (length (error_value 401 (78 ∷ 111 ∷ [])))
              ≡ some 401))
    ⊎ ((401 < 300) ⊎ (700 ≤ 401)) × (append_error_code 401 (78 ∷ 111 ∷ []) wide 0 ≡ none)
parse_error_code-append_example = parse_error_code-append 401 (78 ∷ 111 ∷ []) [] wide (omega arith)

-- An IPv6 value is unmasked with the cookie and the transaction.
mapped_v6 :
    parse_xor_mapped_address (0 ∷ 2 ∷ 0x21 ∷ 0x12 ∷ 0x21 ∷ 0x12 ∷ 0xa4 ∷ 0x42 ∷ id) 0 20 id
    ≡ some (record { family = 2; addr = replicate 16 0; port = 0 })
unfolding parse_xor_mapped_address xor_bytes
mapped_v6 = refl

mapped_v4 :
    parse_mapped_address (0 ∷ 1 ∷ 0 ∷ 80 ∷ 10 ∷ 0 ∷ 0 ∷ 7 ∷ []) 0 8
    ≡ some (record { family = 1; addr = 10 ∷ 0 ∷ 0 ∷ 7 ∷ replicate 12 0; port = 80 })
unfolding parse_mapped_address
mapped_v4 = refl
