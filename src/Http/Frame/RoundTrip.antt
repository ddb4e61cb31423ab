-- ===== src/Http/Frame/RoundTrip.antt =====
-- Written frames are read back, and nothing behind a frame changes.
use wave.Common.{
  ℕ, ◌+◌, ◌-◌, ◌*◌, ◌/◌, ◌%◌, ◌^◌, ◌≤◌, ◌<◌, ◌≡◌, ◌∙◌, refl, ap, arith, some, List, [], ◌∷◌, ◌++◌,
  drop, drop-drop, bit_and, bit_or,
}
use wave.Common.Bits.{bit_and-mask, bit_or_disjoint, pow-pos}
use native.Mathlib.Nat.{pow-le-pow_right, mod-lt}
use wave.Common.Bytes.{IsByte, u8}
use wave.Http.Frame.{Header, join16, join24, join32, parse_header, split32, write_header}

pub join16_lem : (a b : ℕ) → IsByte b → join16 a b ≡ a * 2 ^ 8 + b
unfolding join16
join16_lem a b h = bit_or_disjoint 8 a b h

pub join24_lem : (a b c : ℕ) → IsByte b → IsByte c → join24 a b c ≡ a * 2 ^ 16 + b * 2 ^ 8 + c
unfolding join24
join24_lem a b c hb hc =
    let high : a * 2 ^ 16 + b * 2 ^ 8 ≡ (a * 2 ^ 8 + b) * 2 ^ 8 = omega arith in
    ap (λ (t : ℕ). bit_or t c) (bit_or_disjoint 16 a (b * 2 ^ 8) (omega arith) ∙ high)
    ∙ bit_or_disjoint 8 (a * 2 ^ 8 + b) c hc
    ∙ omega arith

pub join32_lem :
    (a b c d : ℕ)
    → IsByte b
    → IsByte c
    → IsByte d
    → join32 a b c d ≡ a * 2 ^ 24 + b * 2 ^ 16 + c * 2 ^ 8 + d
unfolding join32
join32_lem a b c d hb hc hd =
    let high : a * 2 ^ 24 + b * 2 ^ 16 ≡ (a * 2 ^ 8 + b) * 2 ^ 16 = omega arith in
    let middle : (a * 2 ^ 8 + b) * 2 ^ 16 + c * 2 ^ 8 ≡ ((a * 2 ^ 8 + b) * 2 ^ 8 + c) * 2 ^ 8 =
      omega arith in
    ap (λ (t : ℕ). bit_or (bit_or t (c * 2 ^ 8)) d)
      (bit_or_disjoint 24 a (b * 2 ^ 16) (omega arith) ∙ high)
    ∙ ap (λ (t : ℕ). bit_or t d)
        (bit_or_disjoint 16 (a * 2 ^ 8 + b) (c * 2 ^ 8) (omega arith) ∙ middle)
    ∙ bit_or_disjoint 8 ((a * 2 ^ 8 + b) * 2 ^ 8 + c) d hd
    ∙ omega arith

-- `(x & mask) as u8` where the mask has at most eight bits.
u8-bit_and : (k x : ℕ) → k ≤ 8 → u8 (bit_and x (2 ^ k - 1)) ≡ x % 2 ^ k
u8-bit_and k x h =
    let small : 2 ^ k ≤ 2 ^ 8 = pow-le-pow_right (omega arith) h in
    rw (bit_and-mask k x) (omega (arith, small, mod-lt x (pow-pos k)))

-- The four bytes of a word, some of its top bits cleared.
pub split32_lem :
    (k x : ℕ)
    → k ≤ 8
    → split32 (2 ^ k - 1) x ≡ x / 2 ^ 24 % 2 ^ k ∷ x / 2 ^ 16 % 256 ∷ x / 2 ^ 8 % 256 ∷ x % 256 ∷ []
unfolding split32
split32_lem k x h =
    rw
      (
        u8-bit_and k (x / 2 ^ 24) h,
        u8-bit_and 8 (x / 2 ^ 16) (omega arith),
        u8-bit_and 8 (x / 2 ^ 8) (omega arith),
        u8-bit_and 8 x (omega arith),
      )
      refl

-- The nine bytes of a header.
abbrev pub header_bytes : Header → List ℕ
header_bytes h =
    h.length / 2 ^ 16 % 256
    ∷ h.length / 2 ^ 8 % 256
    ∷ h.length % 256
    ∷ h.ftype
    ∷ h.flags
    ∷ h.stream_id / 2 ^ 24 % 128
    ∷ h.stream_id / 2 ^ 16 % 256
    ∷ h.stream_id / 2 ^ 8 % 256
    ∷ h.stream_id % 256
    ∷ []

pub write_header_lem :
    (dst : List ℕ) (h : Header)
    → write_header dst h.length h.ftype h.flags h.stream_id ≡ header_bytes h ++ drop 9 dst
unfolding write_header
write_header_lem dst h =
    let low = u8-bit_and 8 h.length (omega arith) in
    let middle = u8-bit_and 8 (h.length / 2 ^ 8) (omega arith) in
    let high = u8-bit_and 8 (h.length / 2 ^ 16) (omega arith) in
    rw (low, middle, high, split32_lem 7 h.stream_id (omega arith), drop-drop 4 5 dst) refl

-- Every field in its width on the wire.
abbrev pub IsHeader : Header → Type 0
IsHeader h = (h.length < 2 ^ 24) × IsByte h.ftype × IsByte h.flags × (h.stream_id < 2 ^ 31)

pub parse_header-bytes :
    (h : Header) (rest : List ℕ) → IsHeader h → parse_header (header_bytes h ++ rest) ≡ some h
unfolding parse_header
parse_header-bytes h rest (hl, ht, hf, hs) = ground (
  arith,
  join24_lem (h.length / 2 ^ 16 % 256) (h.length / 2 ^ 8 % 256) (h.length % 256) (omega arith)
      (omega arith),
  bit_and-mask 7 (h.stream_id / 2 ^ 24 % 128),
  join32_lem (h.stream_id / 2 ^ 24 % 128 % 128) (h.stream_id / 2 ^ 16 % 256)
      (h.stream_id / 2 ^ 8 % 256) (h.stream_id % 256) (omega arith) (omega arith) (omega arith),
)
