-- ===== src/Ws/Mask.antt =====
-- `ws_mask_apply` of modules/common/ws_frame_core.rs: four bytes at a time through a machine word.
use wave.Common.{
  ℕ, suc, ◌+◌, ◌*◌, ◌^◌, ◌≡◌, refl, ap, ◌∙◌, arith, Bool, true, false, if◌then◌else◌, List, [], ◌∷◌,
  ◌++◌, bit_xor, length, All,
}
use wave.Common.Bits.{bit_xor_parts, bit_xor_twice, bit_xor-lt}
use wave.Common.Bytes.{IsByte, le32, be32, from32}

-- `[u8; 4]`
pub record Key : Type 0 where
  pub k0 : ℕ
  pub k1 : ℕ
  pub k2 : ℕ
  pub k3 : ℕ

abbrev pub IsKey : Key → Type 0
IsKey k = IsByte k.k0 × IsByte k.k1 × IsByte k.k2 × IsByte k.k3

-- `u32::from_ne_bytes` and `to_ne_bytes`; `big` says which order the target has.
abbrev pub from_ne : Bool → ℕ → ℕ → ℕ → ℕ → ℕ
from_ne big a b c d = if big then from32 d c b a else from32 a b c d

abbrev pub to_ne : Bool → ℕ → List ℕ
to_ne big x = if big then be32 x else le32 x

-- The bytes that `chunks_exact_mut(4)` leaves.
unfoldable pub mask_rest : Key → List ℕ → List ℕ
mask_rest k [] = []
mask_rest k (a ∷ []) = bit_xor a k.k0 ∷ []
mask_rest k (a ∷ b ∷ []) = bit_xor a k.k0 ∷ bit_xor b k.k1 ∷ []
mask_rest k (a ∷ b ∷ c ∷ rest) = bit_xor a k.k0 ∷ bit_xor b k.k1 ∷ bit_xor c k.k2 ∷ rest

unfoldable pub mask_apply : Bool → Key → List ℕ → List ℕ
unfolding mask_rest
mask_apply big k (a ∷ b ∷ c ∷ d ∷ rest) =
    to_ne big (bit_xor (from_ne big a b c d) (from_ne big k.k0 k.k1 k.k2 k.k3))
    ++ mask_apply big k rest
mask_apply big k short = mask_rest k short

-- RFC 6455, section 5.3: byte `i` of the payload is combined with byte `i mod 4` of the key.
abbrev turn : Key → Key
turn k = record { k0 = k.k1; k1 = k.k2; k2 = k.k3; k3 = k.k0 }

pub mask_spec : Key → List ℕ → List ℕ
mask_spec k [] = []
mask_spec k (b ∷ bs) = bit_xor b k.k0 ∷ mask_spec (turn k) bs

word_xor :
    (a b c d e f g h : ℕ)
    → IsByte a × IsByte b × IsByte c × IsByte d
    → IsByte e × IsByte f × IsByte g × IsByte h
    → bit_xor (from32 a b c d) (from32 e f g h)
      ≡ from32 (bit_xor a e) (bit_xor b f) (bit_xor c g) (bit_xor d h)
word_xor a b c d e f g h (ha, hb, hc, hd) (he, hf, hg, hh) =
    rw
      (
        nested a b c d,
        nested e f g h,
        nested (bit_xor a e) (bit_xor b f) (bit_xor c g) (bit_xor d h),
      )
      (bit_xor_parts 8 a e (b + (c + d * 2 ^ 8) * 2 ^ 8) (f + (g + h * 2 ^ 8) * 2 ^ 8) ha he
        ∙ ap (λ (t : ℕ). bit_xor a e + t * 2 ^ 8)
            (bit_xor_parts 8 b f (c + d * 2 ^ 8) (g + h * 2 ^ 8) hb hf
              ∙ ap (λ (t : ℕ). bit_xor b f + t * 2 ^ 8) (bit_xor_parts 8 c g d h hc hg)))
  where
    nested : (x y z w : ℕ) → from32 x y z w ≡ x + (y + (z + w * 2 ^ 8) * 2 ^ 8) * 2 ^ 8
    nested x y z w = omega arith

le32-from32 :
    (a b c d : ℕ)
    → IsByte a × IsByte b × IsByte c × IsByte d
    → le32 (from32 a b c d) ≡ a ∷ b ∷ c ∷ d ∷ []
le32-from32 a b c d h = ground arith

be32-from32 :
    (a b c d : ℕ)
    → IsByte a × IsByte b × IsByte c × IsByte d
    → be32 (from32 a b c d) ≡ d ∷ c ∷ b ∷ a ∷ []
be32-from32 a b c d h = ground arith

-- One word, in either byte order.
word_mask :
    (big : Bool) (k : Key) (a b c d : ℕ)
    → IsKey k
    → IsByte a × IsByte b × IsByte c × IsByte d
    → to_ne big (bit_xor (from_ne big a b c d) (from_ne big k.k0 k.k1 k.k2 k.k3))
      ≡ bit_xor a k.k0 ∷ bit_xor b k.k1 ∷ bit_xor c k.k2 ∷ bit_xor d k.k3 ∷ []
word_mask true k a b c d (h0, h1, h2, h3) (ha, hb, hc, hd) =
    ap be32 (word_xor d c b a k.k3 k.k2 k.k1 k.k0 (hd, hc, hb, ha) (h3, h2, h1, h0))
    ∙ be32-from32 _ _ _ _ (
      bit_xor-lt 8 d k.k3 hd h3,
      bit_xor-lt 8 c k.k2 hc h2,
      bit_xor-lt 8 b k.k1 hb h1,
      bit_xor-lt 8 a k.k0 ha h0,
    )
word_mask false k a b c d (h0, h1, h2, h3) (ha, hb, hc, hd) =
    ap le32 (word_xor a b c d k.k0 k.k1 k.k2 k.k3 (ha, hb, hc, hd) (h0, h1, h2, h3))
    ∙ le32-from32 _ _ _ _ (
      bit_xor-lt 8 a k.k0 ha h0,
      bit_xor-lt 8 b k.k1 hb h1,
      bit_xor-lt 8 c k.k2 hc h2,
      bit_xor-lt 8 d k.k3 hd h3,
    )

-- For a key of bytes and a buffer of bytes, on a target of either byte order, masking by words
-- combines byte `i` of the buffer with byte `i mod 4` of the key, as RFC 6455 says.
pub mask_apply-spec :
    (big : Bool) (k : Key) (buf : List ℕ)
    → IsKey k
    → All IsByte buf
    → mask_apply big k buf ≡ mask_spec k buf
unfolding mask_apply mask_spec
mask_apply-spec big k (a ∷ b ∷ c ∷ d ∷ rest) hk (ha, (hb, (hc, (hd, h)))) =
    rw (word_mask big k a b c d hk (ha, hb, hc, hd), mask_apply-spec big k rest hk h) refl
mask_apply-spec big k [] hk h = refl
mask_apply-spec big k (a ∷ []) hk h = refl
mask_apply-spec big k (a ∷ b ∷ []) hk h = refl
mask_apply-spec big k (a ∷ b ∷ c ∷ []) hk h = refl

mask_spec_twice : (k : Key) (buf : List ℕ) → mask_spec k (mask_spec k buf) ≡ buf
unfolding mask_spec
mask_spec_twice k [] = refl
mask_spec_twice k (b ∷ bs) = rw (bit_xor_twice b k.k0, mask_spec_twice (turn k) bs) refl

mask_spec-IsByte :
    (k : Key) (buf : List ℕ) → IsKey k → All IsByte buf → All IsByte (mask_spec k buf)
unfolding mask_spec
mask_spec-IsByte k [] hk h = tt
mask_spec-IsByte k (b ∷ bs) (h0, h1, h2, h3) (hb, h) =
    (bit_xor-lt 8 b k.k0 hb h0, mask_spec-IsByte (turn k) bs (h1, h2, h3, h0) h)

length-mask_spec : (k : Key) (buf : List ℕ) → length (mask_spec k buf) ≡ length buf
unfolding mask_spec
length-mask_spec k [] = refl
length-mask_spec k (b ∷ bs) = ap suc (length-mask_spec (turn k) bs)

-- Masking changes no length.
pub length-mask_apply :
    (big : Bool) (k : Key) (buf : List ℕ)
    → IsKey k
    → All IsByte buf
    → length (mask_apply big k buf) ≡ length buf
length-mask_apply big k buf hk h = rw (mask_apply-spec big k buf hk h) (length-mask_spec k buf)

-- Masking a buffer of bytes twice with one key of bytes, on targets of any byte orders, gives the
-- buffer back.
pub mask_apply_twice :
    (big big' : Bool) (k : Key) (buf : List ℕ)
    → IsKey k
    → All IsByte buf
    → mask_apply big' k (mask_apply big k buf) ≡ buf
mask_apply_twice big big' k buf hk h = rw (mask_apply-spec big k buf hk h) (
    mask_apply-spec big' k (mask_spec k buf) hk (mask_spec-IsByte k buf hk h)
    ∙ mask_spec_twice k buf)
