-- ===== src/Srtp/Gcm/Nonce.antt =====
-- When two packets of the AES-GCM profile share a nonce, and the indices that the sender of
-- modules/foundation/rtp/mod.rs takes.
use wave.Common.{
  ℕ, zero, suc, ◌+◌, ◌%◌, ◌^◌, ◌<◌, ◌≤◌, ◌≡◌, ◌↔◌, refl, ap, arith, List, [], ◌∷◌, length, get_or,
  drop,
}
use wave.Common.Bits.{bit_xor_cancel}
use wave.Common.Bytes.{IsU16, IsU32}
use wave.Srtp.Gcm.{mix, input, gcm_nonce}

mix_cancel :
    (salt xs ys : List ℕ)
    → length xs ≤ length salt
    → length ys ≡ length xs
    → mix salt xs ≡ mix salt ys
    → xs ≡ ys
unfolding mix
mix_cancel salt [] [] h k e = refl
mix_cancel salt [] (y ∷ ys) h k e = absurd (omega arith)
mix_cancel salt (x ∷ xs) [] h k e = absurd (omega arith)
mix_cancel [] (x ∷ xs) (y ∷ ys) h k e = absurd (omega arith)
mix_cancel (n ∷ salt) (x ∷ xs) (y ∷ ys) h k e =
    let head = bit_xor_cancel n x y (ap (λ (l : List ℕ). get_or l 0 0) e) in
    let tail = mix_cancel salt xs ys (omega arith) (omega arith) (ap (drop 1) e) in
    rw (head, tail) refl

-- Under one salt, packets with different sources or different 48-bit indices have different nonces.
pub gcm_nonce-injective :
    (salt : List ℕ) (ssrc index ssrc' index' : ℕ)
    → length salt ≡ 12
    → IsU32 ssrc
    → IsU32 ssrc'
    → index < 2 ^ 48
    → index' < 2 ^ 48
    → gcm_nonce salt ssrc index ≡ gcm_nonce salt ssrc' index'
    → (ssrc ≡ ssrc') × (index ≡ index')
unfolding gcm_nonce input
gcm_nonce-injective salt s i s' i' hl hs hs' hi hi' e =
    let bytes = mix_cancel salt (input s i) (input s' i') (omega arith) refl e in
    let byte : (k : ℕ) → get_or (input s i) k 0 ≡ get_or (input s' i') k 0 =
      λ k. ap (λ (l : List ℕ). get_or l k 0) bytes in
    (
      omega (arith, byte 2, byte 3, byte 4, byte 5),
      omega (arith, byte 6, byte 7, byte 8, byte 9, byte 10, byte 11),
    )

-- `s.seq_num as u64`, the index of the packet that is sent, and `wrapping_add(1)` behind it.
unfoldable pub next_seq : ℕ → ℕ
next_seq seq_num = (seq_num + 1) % 2 ^ 16

-- The index of the packet that is sent after `n` others.
unfoldable pub sent_index : ℕ → ℕ → ℕ
sent_index zero seq_num = seq_num
sent_index (suc n) seq_num = sent_index n (next_seq seq_num)

sent_index_lem : (n seq_num : ℕ) → IsU16 seq_num → sent_index n seq_num ≡ (seq_num + n) % 2 ^ 16
unfolding sent_index next_seq
sent_index_lem zero s h = omega arith
sent_index_lem (suc n) s h = omega (arith, sent_index_lem n ((s + 1) % 2 ^ 16) (omega arith))

-- Two packets of one sender with one salt have the same nonce exactly when their places in the
-- stream differ by a multiple of 2^16.
pub nonce_repeats :
    (salt : List ℕ) (ssrc seq_num m n : ℕ)
    → length salt ≡ 12
    → IsU32 ssrc
    → IsU16 seq_num
    → (gcm_nonce salt ssrc (sent_index m seq_num) ≡ gcm_nonce salt ssrc (sent_index n seq_num))
      ↔ (m % 2 ^ 16 ≡ n % 2 ^ 16)
nonce_repeats salt ssrc s m n hl hs h = (
  λ e. omega (
    arith,
    sent_index_lem m s h,
    sent_index_lem n s h,
    (gcm_nonce-injective salt ssrc (sent_index m s) ssrc (sent_index n s) hl hs hs
        (omega (arith, sent_index_lem m s h)) (omega (arith, sent_index_lem n s h)) e).1,
  ),
  λ e. ap (gcm_nonce salt ssrc) (omega (arith, sent_index_lem m s h, sent_index_lem n s h)),
)
