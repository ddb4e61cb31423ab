-- ===== src/H3/QuicPayload.antt =====
-- `parse_quic_payload` and `write_quic_payload` of modules/common/h3_datagram.rs: the RFC 9297
-- context id, a QUIC variable-length integer, in front of application data.
use wave.Common.{
  ℕ, ◌+◌, ◌-◌, ◌*◌, ◌/◌, ◌^◌, ◌≤◌, ◌<◌, ◌≡◌, refl, ap, sym, ◌∙◌, arith, ◌⊎◌, ◌↔◌, inl, inr, Option,
  none, some, List, [], ◌∷◌, ◌++◌, ltb, ◌==◌, if◌then◌else◌, Option-cases, bit_and, bit_or, length,
  drop, take, slice, set, get_or, copy_at, copy_at_next, take-append, drop-append, length-append,
}
use native.Mathlib.Decide.{dec_lt}
use wave.Common.Bits.{bit_and-mask, bit_or_disjoint_right}
use wave.Common.BigEndian.{
  be_bytes, read_be_from, read_be_from-be_bytes, shift_in, shift_in_lem, write_down,
  write_down-be_bytes, length-be_bytes,
}

-- `match first >> 6`
pub prefix_width : ℕ → ℕ
prefix_width first =
    let form = first / 2 ^ 6 in
    if form == 0 then 1 else if form == 1 then 2 else if form == 2 then 4 else 8

-- The empty buffer has no first byte.
pub parse_quic_payload : List ℕ → Option (ℕ × List ℕ)
unfolding prefix_width
parse_quic_payload [] = none
parse_quic_payload (first ∷ rest) =
    let width = prefix_width first in
    if ltb (length (first ∷ rest)) width
    then none
    else some (
      read_be_from (bit_and first 0x3f) (slice (first ∷ rest) 1 width),
      drop width (first ∷ rest),
    )

-- The width chosen by the first ladder; `none` for an id that no form holds.
unfoldable pub id_width : ℕ → Option ℕ
id_width id =
    if ltb id (2 ^ 6)
    then some 1
    else if ltb id (2 ^ 14)
    then some 2
    else if ltb id (2 ^ 30)
    then some 4
    else if ltb id (2 ^ 62)
    then some 8
    else none

-- `match width`
pub width_prefix : ℕ → ℕ
width_prefix width =
    if width == 1 then 0 else if width == 2 then 0x40 else if width == 4 then 0x80 else 0xc0

-- The body behind the ladder.
pub write_sized : ℕ → ℕ → List ℕ → List ℕ → Option (ℕ × List ℕ)
unfolding width_prefix write_down
write_sized width id payload out =
    let total = width + length payload in
    let looped = write_down width id out in
    let marked = set looped 0 (bit_or (get_or looped 0 0) (width_prefix width)) in
    if ltb (length out) total then none else some (total, copy_at width payload marked)

pub write_quic_payload : ℕ → List ℕ → List ℕ → Option (ℕ × List ℕ)
unfolding id_width write_sized
write_quic_payload id payload out = elim (id_width id) [
  | none ↦ none
  | some width ↦ write_sized width id payload out
]

-- One form of the integer: `w` bytes, whose first is `hi` with the form number `k` above its six bits.
module _ (w k id hi : ℕ) (tail payload : List ℕ) (bytes : be_bytes w id ≡ hi ∷ tail)
    (small : hi < 64) (fits : id < 256 ^ w) (word : id < 2 ^ 64)
    (mark : bit_or hi (width_prefix w) ≡ hi + k * 64) (form : prefix_width (hi + k * 64) ≡ w) where
  first : ℕ
  first = hi + k * 64

  width_eq : w ≡ length (hi ∷ tail)
  width_eq = sym (length-be_bytes w id) ∙ ap length bytes

  written : List ℕ
  written = (first ∷ tail) ++ payload

  write_sized_form :
      (out : List ℕ)
      → w + length payload ≤ length out
      → write_sized w id payload out
        ≡ some (w + length payload, written ++ drop (w + length payload) out)
  unfolding write_sized written first
  write_sized_form out h = rw (looped_eq, mark) (rw (copied) (ground arith))
    where
      looped_eq : write_down w id out ≡ hi ∷ (tail ++ drop w out)
      looped_eq = write_down-be_bytes w id out (omega arith) ∙ ap (λ l. l ++ drop w out) bytes

      copied :
          copy_at w payload (first ∷ (tail ++ drop w out))
          ≡ written ++ drop (w + length payload) out
      copied = copy_at_next (first ∷ tail) payload out w width_eq

  masked : bit_and first 0x3f ≡ hi
  unfolding first
  masked = bit_and-mask 6 first ∙ omega arith

  read : read_be_from hi tail ≡ id
  unfolding read_be_from
  read = ap (λ v. read_be_from v tail) (sym start) ∙ (whole ∙ omega arith)
    where
      start : shift_in 0 hi ≡ hi
      start = shift_in_lem 0 hi (omega arith) (omega arith) ∙ omega arith

      whole : read_be_from (shift_in 0 hi) tail ≡ 0 * 256 ^ w + id
      whole = ap (read_be_from 0) (sym bytes) ∙ read_be_from-be_bytes w id 0 fits (omega arith)

  form_eq : prefix_width first ≡ w
  unfolding first
  form_eq = form

  parse_form : parse_quic_payload written ≡ some (id, payload)
  unfolding parse_quic_payload written
  parse_form =
      rw (masked, form_eq)
        (rw (take_eq, drop_eq, read) (ground (arith, width_eq, length-append tail payload)))
    where
      take_eq : take (w - 1) (tail ++ payload) ≡ tail
      take_eq =
          ap (λ j. take j (tail ++ payload)) (omega (arith, width_eq)) ∙ take-append tail payload

      drop_eq : drop w (first ∷ (tail ++ payload)) ≡ payload
      drop_eq = ap (λ j. drop j (first ∷ (tail ++ payload))) width_eq ∙ drop-append tail payload

  length-written : w + length payload ≡ length written
  unfolding written
  length-written = omega (arith, width_eq, length-append tail payload)

-- What a write of `payload` behind `id` into `out` achieves.
abbrev pub Written : ℕ → List ℕ → List ℕ → Type 0
Written id payload out =
    (n : ℕ) × (buf : List ℕ) × (write_quic_payload id payload out ≡ some (n, buf))
    × (parse_quic_payload (take n buf) ≡ some (id, payload))
    × (drop n buf ≡ drop n out)

Written-form :
    (w k id hi : ℕ) (tail payload out : List ℕ)
    → be_bytes w id ≡ hi ∷ tail
    → hi < 64
    → id < 256 ^ w
    → id < 2 ^ 64
    → bit_or hi (width_prefix w) ≡ hi + k * 64
    → prefix_width (hi + k * 64) ≡ w
    → id_width id ≡ some w
    → w + length payload ≤ length out
    → Written id payload out
unfolding write_quic_payload
Written-form w k id hi tail payload out bytes small fits word mark form chosen room = (
  w + length payload,
  front ++ drop (w + length payload) out,
  rw (chosen, write_quic_payload)
      (write_sized_form w k id hi tail payload bytes small fits word mark form out room),
  ap parse_quic_payload (ap (λ i. take i buf) len ∙ take-append front _)
      ∙ parse_form w k id hi tail payload bytes small fits word mark form,
  ap (λ i. drop i buf) len ∙ drop-append front _,
)
  where
    front : List ℕ
    front = written w k id hi tail payload bytes small fits word mark form

    buf : List ℕ
    buf = front ++ drop (w + length payload) out

    len : w + length payload ≡ length front
    len = length-written w k id hi tail payload bytes small fits word mark form

abbrev high : ℕ → ℕ → ℕ
high w id = get_or (be_bytes w id) 0 0

abbrev low : ℕ → ℕ → List ℕ
low w id = drop 1 (be_bytes w id)

-- The four forms, at the ids that they are chosen for.
one_byte :
    (id : ℕ) (payload out : List ℕ)
    → id < 2 ^ 6
    → 1 + length payload ≤ length out
    → Written id payload out
unfolding id_width width_prefix prefix_width
one_byte id payload out h room =
    Written-form 1 0 id (high 1 id) (low 1 id) payload out refl (omega arith) (omega arith)
      (omega arith) (bit_or_disjoint_right 6 0 (high 1 id) (omega arith) ∙ omega arith)
      (ground arith) (ground arith) room

two_bytes :
    (id : ℕ) (payload out : List ℕ)
    → 2 ^ 6 ≤ id
    → id < 2 ^ 14
    → 2 + length payload ≤ length out
    → Written id payload out
unfolding id_width width_prefix prefix_width
two_bytes id payload out l h room =
    Written-form 2 1 id (high 2 id) (low 2 id) payload out refl (omega arith) (omega arith)
      (omega arith) (bit_or_disjoint_right 6 1 (high 2 id) (omega arith) ∙ omega arith)
      (ground arith) (ground arith) room

four_bytes :
    (id : ℕ) (payload out : List ℕ)
    → 2 ^ 14 ≤ id
    → id < 2 ^ 30
    → 4 + length payload ≤ length out
    → Written id payload out
unfolding id_width width_prefix prefix_width
four_bytes id payload out l h room =
    Written-form 4 2 id (high 4 id) (low 4 id) payload out refl (omega arith) (omega arith)
      (omega arith) (bit_or_disjoint_right 6 2 (high 4 id) (omega arith) ∙ omega arith)
      (ground arith) (ground arith) room

eight_bytes :
    (id : ℕ) (payload out : List ℕ)
    → 2 ^ 30 ≤ id
    → id < 2 ^ 62
    → 8 + length payload ≤ length out
    → Written id payload out
unfolding id_width width_prefix prefix_width
eight_bytes id payload out l h room =
    Written-form 8 3 id (high 8 id) (low 8 id) payload out refl (omega arith) (omega arith)
      (omega arith) (bit_or_disjoint_right 6 3 (high 8 id) (omega arith) ∙ omega arith)
      (ground arith) (ground arith) room

-- An id that has a form is written in front of every payload that the buffer has room for, the bytes
-- written parse back to the id and the payload, and the rest of the buffer is left as it was.
pub parse-write_quic :
    (id w : ℕ) (payload out : List ℕ)
    → id_width id ≡ some w
    → w + length payload ≤ length out
    → Written id payload out
unfolding id_width
parse-write_quic id w payload out e room = elim (dec_lt id (2 ^ 6)) [
  | yes a ↦ one_byte id payload out a (ground arith)
  | no a ↦ elim (dec_lt id (2 ^ 14)) [
    | yes b ↦ two_bytes id payload out (omega arith) b (ground arith)
    | no b ↦ elim (dec_lt id (2 ^ 30)) [
      | yes c ↦ four_bytes id payload out (omega arith) c (ground arith)
      | no c ↦ eight_bytes id payload out (omega arith) (ground arith) (ground arith)
    ]
  ]
]

id_width-none : (id : ℕ) → id_width id ≡ none → 2 ^ 62 ≤ id
unfolding id_width
id_width-none id e = ground arith

id_width-some : (id w : ℕ) → id_width id ≡ some w → ¬ (2 ^ 62 ≤ id)
unfolding id_width
id_width-some id w e h = ground arith

write_sized-none :
    (w id : ℕ) (payload out : List ℕ)
    → (write_sized w id payload out ≡ none) ↔ (length out < w + length payload)
unfolding write_sized
write_sized-none w id payload out = (λ e. ground arith, λ h. ground arith)

-- A write fails exactly when the id needs more than 62 bits or the buffer lacks room for the form of
-- the id with the payload.
write_quic_payload-none :
    (id : ℕ) (payload out : List ℕ)
    → (write_quic_payload id payload out ≡ none)
      ↔ ((2 ^ 62 ≤ id) ⊎ ((w : ℕ) × (id_width id ≡ some w) × (length out < w + length payload)))
unfolding write_quic_payload
write_quic_payload-none id payload out = elim (Option-cases (id_width id)) [
  | inl e ↦ (λ _. inl (id_width-none id e), λ _. rw (e, write_quic_payload))
  | inr (w, e) ↦ (
    λ p. inr (w, e, (write_sized-none w id payload out).0 (rw (e, write_quic_payload) at p)),
    λ p. elim p [
      | inl big ↦ absurd (id_width-some id w e big)
      | inr (v, e', short) ↦
          let same : w ≡ v = cc in
          rw (e, write_quic_payload) ((write_sized-none w id payload out).1 (rw same short))
    ],
  )
]
