-- ===== src/Sframe/Header/RoundTrip.antt =====
-- `write_sframe_header` and `parse_sframe_header` are inverse to each other.
use wave.Common.{
  ℕ, zero, suc, ◌+◌, ◌-◌, ◌*◌, ◌/◌, ◌%◌, ◌^◌, ◌≤◌, ◌<◌, ◌≡◌, inl, inr, refl, ap, ◌∙◌, arith,
  if◌then◌else◌, if_split, ltb, Bool-cases, some, List, [], ◌∷◌, ◌++◌, bit_and, bit_or, length,
  drop, slice, copy_at_next, slice-append, length-append, append_assoc, append-nil,
}
use wave.Common.Bits.{bit, bit_or_disjoint, bit_and-mask, bit_and-pow, zero-bit_or}
use wave.Common.Bytes.{be64, IsU64}
use wave.Common.BigEndian.{be_bytes, read_be_from-be_bytes, length-be_bytes}
use wave.Sframe.Header.{
  inline_max, width, field_width, header_len, config_kid, config_byte, write_be, write, read_be,
  parse_config, parse,
}
use wave.Sframe.Header.Width.{width_lem}

-- The three-bit field of the config byte: the value itself, or its width less one.
abbrev field : ℕ → ℕ
field value = if ltb inline_max value then width value - 1 else value

abbrev extended : ℕ → ℕ
extended value = if ltb inline_max value then 1 else 0

field-lt : (value : ℕ) → IsU64 value → field value < 8
field-lt value h = ground (arith, width_lem value h)

low_three : (x : ℕ) → x < 8 → bit_and x 0x07 ≡ x
low_three x h = bit_and-mask 3 x ∙ omega arith

config_kid_lem : (k : ℕ) → IsU64 k → config_kid k ≡ (extended k * 8 + field k) * 2 ^ 4
unfolding config_kid
config_kid_lem k h =
    if_split (λ x. x ≡ (extended k * 8 + field k) * 2 ^ 4) (ltb inline_max k) _ _
      (λ e.
        rw (e, low_three (width k - 1) (omega (arith, width_lem k h)))
          (bit_or_disjoint 7 1 ((width k - 1) * 2 ^ 4) (omega (arith, width_lem k h))
            ∙ omega arith))
      (λ e.
        let inline : k < 8 = ground arith in
        rw (e, low_three (k % 256) (omega arith), zero-bit_or) (omega arith))

config_byte_lem :
    (k c : ℕ)
    → IsU64 k
    → IsU64 c
    → config_byte k c ≡ extended k * 128 + field k * 16 + extended c * 8 + field c
unfolding config_byte
config_byte_lem k c h h' =
    if_split Right (ltb inline_max c) _ _
      (λ e.
        rw (e, config_kid_lem k h, low_three (width c - 1) (omega (arith, width_lem c h')))
          (ap (λ (t : ℕ). bit_or t (width c - 1)) marked
            ∙ (bit_or_disjoint 3 (q * 2 + 1) (width c - 1) (omega (arith, width_lem c h'))
                ∙ omega arith)))
      (λ e.
        let inline : c < 8 = ground arith in
        let value : c % 256 ≡ c = omega arith in
        rw (e, config_kid_lem k h, value, low_three c inline)
          (bit_or_disjoint 4 q c (omega arith) ∙ omega arith))
  where
    Right : ℕ → Type 0
    Right x = x ≡ extended k * 128 + field k * 16 + extended c * 8 + field c

    q : ℕ
    q = extended k * 8 + field k

    marked : bit_or (q * 2 ^ 4) 0x08 ≡ (q * 2 + 1) * 2 ^ 3
    marked = bit_or_disjoint 4 q 8 (omega arith) ∙ omega arith

be64-be_bytes : (v : ℕ) → be64 v ≡ be_bytes 8 v
be64-be_bytes v = ground arith

last_bytes : (w v : ℕ) → w ≤ 8 → drop (8 - w) (be_bytes 8 v) ≡ be_bytes w v
last_bytes zero v h = refl
last_bytes (suc zero) v h = refl
last_bytes (suc (suc zero)) v h = refl
last_bytes (suc (suc (suc zero))) v h = refl
last_bytes (suc (suc (suc (suc zero)))) v h = refl
last_bytes (suc (suc (suc (suc (suc zero))))) v h = refl
last_bytes (suc (suc (suc (suc (suc (suc zero)))))) v h = refl
last_bytes (suc (suc (suc (suc (suc (suc (suc zero))))))) v h = refl
last_bytes (suc (suc (suc (suc (suc (suc (suc (suc zero)))))))) v h = refl
last_bytes (suc (suc (suc (suc (suc (suc (suc (suc (suc w))))))))) v h = absurd (omega arith)

-- The bytes behind the config byte that a field takes.
abbrev pub field_bytes : ℕ → List ℕ
field_bytes value = if ltb inline_max value then be_bytes (width value) value else []

pub encoding : ℕ → ℕ → List ℕ
encoding k c = (config_byte k c ∷ field_bytes k) ++ field_bytes c

length-field_bytes : (v : ℕ) → length (field_bytes v) ≡ field_width v
length-field_bytes v = ground (arith, length-be_bytes (width v) v)

write_be_next :
    (value w at : ℕ) (pre out : List ℕ)
    → w ≤ 8
    → at ≡ length pre
    → write_be value w at (pre ++ drop at out) ≡ (pre ++ be_bytes w value) ++ drop (at + w) out
unfolding write_be
write_be_next value w at pre out h e =
    rw (be64-be_bytes value, last_bytes w value h)
      (copy_at_next pre (be_bytes w value) out at e
        ∙ ap (λ n. (pre ++ be_bytes w value) ++ drop (at + n) out) (length-be_bytes w value))

-- One field of the header: written behind `pre`, or nothing.
add_field :
    (v at : ℕ) (pre out : List ℕ)
    → IsU64 v
    → at ≡ length pre
    → (if ltb inline_max v
        then write_be v (field_width v) at (pre ++ drop at out)
        else pre ++ drop at out)
      ≡ (pre ++ field_bytes v) ++ drop (at + field_width v) out
add_field v at pre out h e = elim (Bool-cases (ltb inline_max v)) [
  | inl t ↦ rw t (write_be_next v (width v) at pre out (width_lem v h).1 e)
  | inr f ↦ let same : at + 0 ≡ at = omega arith in rw f (rw (same, append-nil) refl)
]

place_of : (k : ℕ) → (if ltb inline_max k then 1 + field_width k else 1) ≡ 1 + field_width k
place_of k = ground arith

-- A write of two `u64` values with enough room puts their encoding at the front of the buffer,
-- keeps the rest, and returns the length that `sframe_header_len` announces.
pub write-header_encoding :
    (k c : ℕ) (out : List ℕ)
    → IsU64 k
    → IsU64 c
    → header_len k c ≤ length out
    → write k c out ≡ some (header_len k c, encoding k c ++ drop (header_len k c) out)
unfolding write header_len encoding
write-header_encoding k c out h h' room =
    rw (place_of k, copy_at_next [] (config_byte k c ∷ []) out 0 refl)
      (rw (add_field k 1 (config_byte k c ∷ []) out h refl) (
        rw (add_field c (1 + field_width k) (config_byte k c ∷ field_bytes k) out h' here)
          (ground arith)))
  where
    here : 1 + field_width k ≡ length (config_byte k c ∷ field_bytes k)
    here = omega (arith, length-field_bytes k)

pieces :
    (x a y b : ℕ)
    → x < 2
    → a < 8
    → y < 2
    → b < 8
    → (bit (x * 128 + a * 16 + y * 8 + b) 7 * 2 ^ 7 ≡ x * 128)
      × (bit (x * 128 + a * 16 + y * 8 + b) 3 * 2 ^ 3 ≡ y * 8)
      × ((x * 128 + a * 16 + y * 8 + b) / 2 ^ 4 % 2 ^ 3 ≡ a)
      × ((x * 128 + a * 16 + y * 8 + b) % 2 ^ 3 ≡ b)
pieces x a y b hx ha hy hb = omega arith

extended-lt : (v : ℕ) → extended v < 2
extended-lt v = ground arith

-- The config byte says which fields follow, and how long they are.
config_fields :
    (k c : ℕ)
    → IsU64 k
    → IsU64 c
    → (bit_and (config_byte k c) 0x80 ≡ extended k * 128)
      × (bit_and (config_byte k c) 0x08 ≡ extended c * 8)
      × (bit_and (config_byte k c / 2 ^ 4) 0x07 ≡ field k)
      × (bit_and (config_byte k c) 0x07 ≡ field c)
config_fields k c h h' =
    let (p, q, r, s) =
      pieces (extended k) (field k) (extended c) (field c) (extended-lt k) (field-lt k h)
        (extended-lt c) (field-lt c h') in
    rw (config_byte_lem k c h h') (
      bit_and-pow 7 whole ∙ p,
      bit_and-pow 3 whole ∙ q,
      bit_and-mask 3 (whole / 2 ^ 4) ∙ r,
      bit_and-mask 3 whole ∙ s,
    )
  where
    whole : ℕ
    whole = extended k * 128 + field k * 16 + extended c * 8 + field c

-- What the parser reads for a field that follows `pre`.
read_field :
    (v : ℕ) (pre rest : List ℕ) (a b : ℕ)
    → IsU64 v
    → a ≡ length pre
    → b ≡ a + width v
    → read_be (slice ((pre ++ be_bytes (width v) v) ++ rest) a b) ≡ v
unfolding read_be
read_field v pre rest a b h ea eb =
    rw
      (slice-append pre (be_bytes (width v) v) rest a b ea
        (omega (arith, length-be_bytes (width v) v)))
      (read_be_from-be_bytes (width v) v 0 (width_lem v h).2 (omega arith) ∙ omega arith)

width-back : (v : ℕ) → IsU64 v → width v - 1 + 1 ≡ width v
width-back v h = omega (arith, width_lem v h)

-- Of the encoding of any two `u64` values, whatever follows it, `parse` reads the key id, the
-- counter and the header's length back.
pub parse-header_encoding :
    (k c : ℕ) (rest : List ℕ)
    → IsU64 k
    → IsU64 c
    → parse (encoding k c ++ rest)
      ≡ some (record { key_id = k; counter = c; header_len = header_len k c })
unfolding parse parse_config encoding header_len
parse-header_encoding k c rest h h' =
    let (p, q, r, s) = config_fields k c h h' in
    let bk = width-back k h in
    let bc = width-back c h' in
    elim (Bool-cases (ltb inline_max k)) [
      | inl tk ↦ elim (Bool-cases (ltb inline_max c)) [
        | inl tc ↦
            rw (p, q, r, s)
              (rw (tk, tc)
                (rw (bk, bc, first cb, behind) (ground (arith, size kb cb, kb_len, cb_len))))
        | inr fc ↦
            rw (p, q, r, s) (rw (tk, fc) (rw (bk, first []) (ground (arith, size kb [], kb_len))))
      ]
      | inr fk ↦ elim (Bool-cases (ltb inline_max c)) [
        | inl tc ↦
            let rc = read_field c (cfg ∷ []) rest 1 (1 + width c) h' refl refl in
            let flat : 1 + 0 + width c ≡ 1 + width c = omega arith in
            rw (p, q, r, s)
              (rw (fk, tc) (rw (bc, flat) (rw rc (ground (arith, size [] cb, cb_len)))))
        | inr fc ↦ rw (p, q, r, s) (rw (fk, fc) (ground arith))
      ]
    ]
  where
    cfg : ℕ
    cfg = config_byte k c

    kb : List ℕ
    kb = be_bytes (width k) k

    cb : List ℕ
    cb = be_bytes (width c) c

    kb_len : length kb ≡ width k
    kb_len = length-be_bytes (width k) k

    cb_len : length cb ≡ width c
    cb_len = length-be_bytes (width c) c

    first : (more : List ℕ) → read_be (slice (((cfg ∷ kb) ++ more) ++ rest) 1 (1 + width k)) ≡ k
    first more =
        ap (λ l. read_be (slice l 1 (1 + width k))) (append_assoc (cfg ∷ kb) more rest)
        ∙ read_field k (cfg ∷ []) (more ++ rest) 1 (1 + width k) h refl refl

    behind : read_be (slice (((cfg ∷ kb) ++ cb) ++ rest) (1 + width k) (1 + width k + width c)) ≡ c
    behind =
        read_field c (cfg ∷ kb) rest (1 + width k) (1 + width k + width c) h'
          (omega (arith, kb_len)) refl

    size : (xs ys : List ℕ) → length ((xs ++ ys) ++ rest) ≡ length xs + length ys + length rest
    size xs ys = omega (arith, length-append (xs ++ ys) rest, length-append xs ys)
