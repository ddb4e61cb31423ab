-- ===== src/Utf8/Scalar.antt =====
-- The byte strings that `valid_utf8` accepts are the encodings of sequences of Unicode scalar values.
use wave.Common.{
  ℕ, zero, suc, ◌+◌, ◌-◌, ◌*◌, ◌/◌, ◌%◌, ◌≤◌, ◌<◌, ◌≡◌, ◌↔◌, ◌⊎◌, inl, inr, refl, ap, ◌∙◌, arith,
  true, Option, none, some, Option-cases, List, [], ◌∷◌, ◌++◌, ltb, if◌then◌else◌, length, All,
}
use native.Mathlib.Decide.{dec_lt}
use wave.Utf8.{Form, ascii, two, three, four, illegal, form, rest_of, valid_loop, valid_utf8}

-- A Unicode scalar value: a code point that is no surrogate.
abbrev pub IsScalar : ℕ → Type 0
IsScalar x = (x < 0xd800) ⊎ ((0xdfff < x) × (x < 0x110000))

-- RFC 3629, section 3.
abbrev pub encode : ℕ → List ℕ
encode x =
    if ltb x 0x80
    then x ∷ []
    else if ltb x 0x800
    then (0xc0 + x / 64) ∷ (0x80 + x % 64) ∷ []
    else if ltb x 0x10000
    then (0xe0 + x / 4096) ∷ (0x80 + x / 64 % 64) ∷ (0x80 + x % 64) ∷ []
    else (0xf0 + x / 262144) ∷ (0x80 + x / 4096 % 64) ∷ (0x80 + x / 64 % 64) ∷ (0x80 + x % 64) ∷ []

abbrev pub encode_all : List ℕ → List ℕ
encode_all [] = []
encode_all (x ∷ xs) = encode x ++ encode_all xs

-- What each form of sequence holds.
ascii_sound : (a : ℕ) (rest : List ℕ) → a < 0x80 → a ∷ rest ≡ encode a ++ rest
ascii_sound a rest h = ground arith

two_sound :
    (a b : ℕ) (rest : List ℕ)
    → 0xc2 ≤ a
    → a ≤ 0xdf
    → 0x80 ≤ b
    → b ≤ 0xbf
    → (x : ℕ) × IsScalar x × (a ∷ b ∷ rest ≡ encode x ++ rest)
two_sound a b rest h h' k k' = ((a - 0xc0) * 64 + (b - 0x80), inl (omega arith), ground arith)

three_sound :
    (a b c : ℕ) (rest : List ℕ)
    → 0xe0 ≤ a
    → a ≤ 0xef
    → 0x80 ≤ b
    → b ≤ 0xbf
    → 0x80 ≤ c
    → c ≤ 0xbf
    → 160 ≤ (a - 0xe0) * 64 + b
    → (((a - 0xe0) * 64 + b < 0x3e0) ⊎ (0x400 ≤ (a - 0xe0) * 64 + b))
    → (x : ℕ) × IsScalar x × (a ∷ b ∷ c ∷ rest ≡ encode x ++ rest)
three_sound a b c rest h h' k k' l l' m n =
    ((a - 0xe0) * 4096 + (b - 0x80) * 64 + (c - 0x80), scalar n, ground arith)
  where
    scalar :
        ((a - 0xe0) * 64 + b < 0x3e0) ⊎ (0x400 ≤ (a - 0xe0) * 64 + b)
        → IsScalar ((a - 0xe0) * 4096 + (b - 0x80) * 64 + (c - 0x80))
    scalar (inl low) = inl (omega arith)
    scalar (inr high) = inr (omega arith)

four_sound :
    (a b c d : ℕ) (rest : List ℕ)
    → 0xf0 ≤ a
    → 0x80 ≤ b
    → b ≤ 0xbf
    → 0x80 ≤ c
    → c ≤ 0xbf
    → 0x80 ≤ d
    → d ≤ 0xbf
    → 144 ≤ (a - 0xf0) * 64 + b
    → (a - 0xf0) * 64 + b < 400
    → (x : ℕ) × IsScalar x × (a ∷ b ∷ c ∷ d ∷ rest ≡ encode x ++ rest)
four_sound a b c d rest h k k' l l' o o' m n = (
  (a - 0xf0) * 262144 + (b - 0x80) * 4096 + (c - 0x80) * 64 + (d - 0x80),
  inr (omega arith),
  ground arith,
)

-- One round of the loop reads one scalar value.
round_sound :
    (first : ℕ) (f : Form) (bytes rest : List ℕ)
    → form first ≡ f
    → rest_of f bytes ≡ some rest
    → (x : ℕ) × IsScalar x × (first ∷ bytes ≡ encode x ++ rest)
unfolding form rest_of
round_sound first ascii bytes rest ef e = (first, inl (ground arith), ground arith)
round_sound first two (b ∷ bytes) rest ef e =
    let same : bytes ≡ rest = ground arith in
    rw same (two_sound first b rest (ground arith) (ground arith) (ground arith) (ground arith))
round_sound first (three low high) (b ∷ c ∷ bytes) rest ef e =
    let same : bytes ≡ rest = ground arith in
    rw same (
      three_sound first b c rest (ground arith) (ground arith) (ground arith) (ground arith)
        (ground arith) (ground arith) (ground arith) (ground arith))
round_sound first (four low high) (b ∷ c ∷ d ∷ bytes) rest ef e =
    let same : bytes ≡ rest = ground arith in
    rw same (
      four_sound first b c d rest (ground arith) (ground arith) (ground arith) (ground arith)
        (ground arith) (ground arith) (ground arith) (ground arith) (ground arith))
round_sound first illegal bytes rest ef e = cc
round_sound first two [] rest ef e = cc
round_sound first (three low high) [] rest ef e = cc
round_sound first (three low high) (b ∷ []) rest ef e = cc
round_sound first (four low high) [] rest ef e = cc
round_sound first (four low high) (b ∷ []) rest ef e = cc
round_sound first (four low high) (b ∷ c ∷ []) rest ef e = cc

-- The loop on bytes that are there: the first sequence, then the rest.
next : List ℕ → Option (List ℕ)
next [] = none
next (first ∷ bytes) = rest_of (form first) bytes

next-encode : (x : ℕ) (rest : List ℕ) → IsScalar x → next (encode x ++ rest) ≡ some rest
unfolding next form rest_of
next-encode x rest h = elim (dec_lt x 0x80) [
  | yes a ↦ ground arith
  | no a ↦ elim (dec_lt x 0x800) [
    | yes b ↦ ground arith
    | no b ↦ elim (dec_lt x 0x10000) [ yes c ↦ ground arith | no c ↦ ground arith ]
  ]
]

rest-shorter :
    (f : Form) (bytes rest : List ℕ)
    → rest_of f bytes ≡ some rest
    → suc (length rest) ≤ suc (length bytes)
unfolding rest_of
rest-shorter f bytes rest e = ground arith

valid_nil : (rounds : ℕ) → valid_loop rounds [] ≡ true
unfolding valid_loop
valid_nil zero = refl
valid_nil (suc rounds) = refl

-- A round takes at least one byte.
next-shorter : (bs rest : List ℕ) → next bs ≡ some rest → suc (length rest) ≤ length bs
unfolding next rest_of
next-shorter [] rest e = cc
next-shorter (first ∷ bytes) rest e = rest-shorter (form first) bytes rest e

loop_next :
    (rounds : ℕ) (bs rest : List ℕ)
    → next bs ≡ some rest
    → valid_loop (suc rounds) bs ≡ valid_loop rounds rest
unfolding next valid_loop
loop_next rounds [] rest e = cc
loop_next rounds (first ∷ bytes) rest e = rw (e, valid_loop) refl

loop_sound :
    (rounds : ℕ) (bs : List ℕ)
    → valid_loop rounds bs ≡ true
    → (xs : List ℕ) × All IsScalar xs × (bs ≡ encode_all xs)
unfolding valid_loop
loop_sound rounds [] e = ([], record {}, refl)
loop_sound zero (first ∷ bytes) e = cc
loop_sound (suc rounds) (first ∷ bytes) e = elim (Option-cases (rest_of (form first) bytes)) [
  | inl f ↦ cc (rw (f, valid_loop) at e)
  | inr (rest, f) ↦
      let (xs, all, same) = loop_sound rounds rest (rw (f, valid_loop) at e) in
      let (x, scalar, front) = round_sound first (form first) bytes rest refl f in
      (x ∷ xs, (scalar, all), front ∙ ap (λ l. encode x ++ l) same)
]

loop_complete :
    (rounds : ℕ) (xs : List ℕ)
    → All IsScalar xs
    → length (encode_all xs) ≤ rounds
    → valid_loop rounds (encode_all xs) ≡ true
loop_complete rounds [] all h = valid_nil rounds
loop_complete zero (x ∷ xs) (s, all) h = absurd (
    omega (
      arith,
      next-shorter (encode x ++ encode_all xs) (encode_all xs) (next-encode x (encode_all xs) s),
    ))
loop_complete (suc rounds) (x ∷ xs) (s, all) h =
    let e = next-encode x (encode_all xs) s in
    loop_next rounds (encode x ++ encode_all xs) (encode_all xs) e
    ∙ loop_complete rounds xs all
        (omega (arith, next-shorter (encode x ++ encode_all xs) (encode_all xs) e))

-- `valid_utf8` accepts a byte string exactly if it is the encoding of a sequence of Unicode scalar values.
pub valid_utf8_iff :
    (bs : List ℕ)
    → (valid_utf8 bs ≡ true) ↔ ((xs : List ℕ) × All IsScalar xs × (bs ≡ encode_all xs))
unfolding valid_utf8
valid_utf8_iff bs = (
  loop_sound (length bs) bs,
  λ (xs, all, e). rw e (loop_complete (length (encode_all xs)) xs all (omega arith)),
)
