-- ===== src/Srtp/Cm/Stream.antt =====
-- `aes_cm_xor` as the XOR with one key stream.
use wave.Common.{
  ℕ, zero, suc, ◌+◌, ◌%◌, ◌^◌, ◌≤◌, ◌≡◌, refl, ap, sym, ◌∙◌, arith, List, [], ◌∷◌, ◌++◌, length,
  take, drop, length-drop, bit_xor,
}
use wave.Common.Bits.{bit_xor_twice}
use wave.Srtp.Gcm.{mix}
use wave.Srtp.Cm.{Primitives, HasLengths, counter, xor_blocks, aes_cm_xor}

pub length-mix : (xs ks : List ℕ) → length (mix xs ks) ≡ length xs
unfolding mix
length-mix [] [] = refl
length-mix [] (k ∷ ks) = refl
length-mix (x ∷ xs) [] = refl
length-mix (x ∷ xs) (k ∷ ks) = ap suc (length-mix xs ks)

mix_twice : (xs ks : List ℕ) → mix (mix xs ks) ks ≡ xs
unfolding mix
mix_twice [] [] = refl
mix_twice [] (k ∷ ks) = refl
mix_twice (x ∷ xs) [] = refl
mix_twice (x ∷ xs) (k ∷ ks) = rw (bit_xor_twice x k, mix_twice xs ks) refl

mix-append :
    (xs ks ls : List ℕ)
    → mix (take (length ks) xs) ks ++ mix (drop (length ks) xs) ls ≡ mix xs (ks ++ ls)
unfolding mix
mix-append [] [] ls = refl
mix-append [] (k ∷ ks) [] = refl
mix-append [] (k ∷ ks) (l ∷ ls) = refl
mix-append (x ∷ xs) [] ls = refl
mix-append (x ∷ xs) (k ∷ ks) ls = ap (λ (t : List ℕ). bit_xor x k ∷ t) (mix-append xs ks ls)

module _ (prims : Primitives) (lengths : HasLengths prims) (key salt : List ℕ)
    (ssrc index : ℕ) where
  -- The blocks of the counters from `block_no` on, one after the other.
  key_stream : ℕ → ℕ → List ℕ
  key_stream zero block_no = []
  key_stream (suc n) block_no =
      prims.block key (counter salt ssrc index block_no) ++ key_stream n ((block_no + 1) % 2 ^ 32)

  mix_nil : (xs : List ℕ) → mix [] xs ≡ []
  unfolding mix
  mix_nil [] = refl
  mix_nil (x ∷ xs) = refl

  xor_blocks-mix :
      (n block_no : ℕ) (bytes : List ℕ)
      → length bytes ≤ n
      → xor_blocks prims key salt ssrc index n block_no bytes ≡ mix bytes (key_stream n block_no)
  unfolding xor_blocks key_stream
  xor_blocks-mix zero block_no [] h = sym (mix_nil [])
  xor_blocks-mix zero block_no (d ∷ bytes) h = absurd (omega arith)
  xor_blocks-mix (suc n) block_no [] h = sym (mix_nil _)
  xor_blocks-mix (suc n) block_no (d ∷ bytes) h =
      let stream = prims.block key (counter salt ssrc index block_no) in
      let next = (block_no + 1) % 2 ^ 32 in
      let full : length stream ≡ 16 = lengths.block_length key (counter salt ssrc index block_no) in
      let left : length (drop 16 (d ∷ bytes)) ≤ n = omega (arith, length-drop 16 (d ∷ bytes)) in
      ap (λ (l : List ℕ). mix (take 16 (d ∷ bytes)) stream ++ l)
        (xor_blocks-mix n next (drop 16 (d ∷ bytes)) left)
      ∙ (ap
            (λ (k : ℕ).
              mix (take k (d ∷ bytes)) stream ++ mix (drop k (d ∷ bytes)) (key_stream n next))
            (sym full)
          ∙ mix-append (d ∷ bytes) stream (key_stream n next))

  -- The same key, salt, source and index undo it.
  pub aes_cm_xor_twice :
      (bytes : List ℕ)
      → aes_cm_xor prims key salt ssrc index (aes_cm_xor prims key salt ssrc index bytes) ≡ bytes
  unfolding aes_cm_xor
  aes_cm_xor_twice bytes =
      let n = length bytes in
      let ks = key_stream n 0 in
      let once : xor_blocks prims key salt ssrc index n 0 bytes ≡ mix bytes ks =
        xor_blocks-mix n 0 bytes (omega arith) in
      let same : length (mix bytes ks) ≡ n = length-mix bytes ks in
      rw (once, same, xor_blocks-mix n 0 (mix bytes ks) (omega arith)) (mix_twice bytes ks)

  pub length-aes_cm_xor :
      (bytes : List ℕ) → length (aes_cm_xor prims key salt ssrc index bytes) ≡ length bytes
  unfolding aes_cm_xor
  length-aes_cm_xor bytes =
      ap length (xor_blocks-mix (length bytes) 0 bytes (omega arith))
      ∙ length-mix bytes (key_stream (length bytes) 0)
