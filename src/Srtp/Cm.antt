-- ===== src/Srtp/Cm.antt =====
-- The AES-CM profile of modules/common/srtp_core.rs. The block cipher and SHA-1 are parameters,
-- since the source includes them from a package.
pub mod Stream
pub mod RoundTrip
use wave.Common.{
  ℕ, zero, suc, ◌+◌, ◌-◌, ◌/◌, ◌%◌, ◌^◌, ◌≡◌, Option, none, some, List, [], ◌∷◌, ◌++◌, map, length,
  take, drop, slice, replicate, copy_at, ltb, leb, ◌==◌, ◌!=◌, if◌then◌else◌, bit_or, bit_xor,
}
use wave.Common.Bytes.{be32}
use wave.Srtp.Gcm.{mix}

abbrev pub cm_tag_len : ℕ
cm_tag_len = 10

-- `aes128_ecb_encrypt_block` on a key and a block, and `sha1`.
pub record Primitives : Type 0 where
  pub block : List ℕ → List ℕ → List ℕ
  pub sha1 : List ℕ → List ℕ

-- The shape that their types promise.
pub record HasLengths (prims : Primitives) : Type 0 where
  pub block_length : (k b : List ℕ) → length (prims.block k b) ≡ 16
  pub sha1_length : (bytes : List ℕ) → length (prims.sha1 bytes) ≡ 20

-- The counter block: salt, source and index, and the number of the block over the last four bytes.
unfoldable pub counter : List ℕ → ℕ → ℕ → ℕ → List ℕ
counter salt ssrc index block_no =
    copy_at 12 (be32 block_no)
      (mix (salt ++ 0 ∷ 0 ∷ []) (0 ∷ 0 ∷ 0 ∷ 0 ∷ (be32 ssrc ++ be32 index)))

-- `diff |= auth[i] ^ packet[plain_len + i]`
unfoldable pub difference : ℕ → List ℕ → List ℕ → ℕ
difference diff (a ∷ auth) (t ∷ tag) = difference (bit_or diff (bit_xor a t)) auth tag
difference diff _ _ = diff

module _ (prims : Primitives) where
  -- `hmac_sha1`; bytes that does not fit beside the padded key leaves `out` as it is.
  unfoldable pub hmac_sha1 : List ℕ → List ℕ → List ℕ → List ℕ
  hmac_sha1 key bytes out =
      let short = if ltb 64 (length key) then prims.sha1 key else key in
      let block = take 64 (short ++ replicate 64 0) in
      let inner = prims.sha1 (map (λ b. bit_xor b 0x36) block ++ bytes) in
      if ltb 1600 (64 + length bytes)
      then out
      else prims.sha1 (map (λ b. bit_xor b 0x5c) block ++ inner)

  -- The loop over the blocks, on the bytes that is left.
  unfoldable pub xor_blocks : List ℕ → List ℕ → ℕ → ℕ → ℕ → ℕ → List ℕ → List ℕ
  xor_blocks key salt ssrc index zero block_no bytes = bytes
  xor_blocks key salt ssrc index (suc n) block_no [] = []
  xor_blocks key salt ssrc index (suc n) block_no (d ∷ bytes) =
      mix (take 16 (d ∷ bytes)) (prims.block key (counter salt ssrc index block_no))
      ++ xor_blocks key salt ssrc index n ((block_no + 1) % 2 ^ 32) (drop 16 (d ∷ bytes))

  unfoldable pub aes_cm_xor : List ℕ → List ℕ → ℕ → ℕ → List ℕ → List ℕ
  aes_cm_xor key salt ssrc index bytes = xor_blocks key salt ssrc index (length bytes) 0 bytes

  -- The tag of the first bytes of a packet: they are followed by the rollover counter.
  unfoldable pub auth_of : List ℕ → ℕ → List ℕ → List ℕ
  auth_of auth_key index body =
      hmac_sha1 auth_key (body ++ be32 (index / 2 ^ 16 % 2 ^ 32)) (replicate 20 0)

module _ (prims : Primitives) (enc_key auth_key salt : List ℕ) where
  unfoldable pub protect_aes_cm_sha1_80 : ℕ → ℕ → List ℕ → ℕ → ℕ → Option (ℕ × List ℕ)
  protect_aes_cm_sha1_80 ssrc index packet header_len plain_len =
      let cipher = aes_cm_xor prims enc_key salt ssrc index (slice packet header_len plain_len) in
      let packet' = copy_at header_len cipher packet in
      let auth = auth_of prims auth_key index (take plain_len packet') in
      if ltb plain_len header_len
      then none
      else if ltb (length packet - cm_tag_len) plain_len
      then none
      else if ltb 1600 (plain_len + 4)
      then none
      else some (plain_len + cm_tag_len, copy_at plain_len (take cm_tag_len auth) packet')

  unfoldable pub unprotect_aes_cm_sha1_80 : ℕ → ℕ → List ℕ → ℕ → Option (ℕ × List ℕ)
  unprotect_aes_cm_sha1_80 ssrc index packet header_len =
      let plain_len = length packet - cm_tag_len in
      let auth = auth_of prims auth_key index (take plain_len packet) in
      let plain = aes_cm_xor prims enc_key salt ssrc index (slice packet header_len plain_len) in
      if leb (length packet) cm_tag_len
      then none
      else if ltb plain_len header_len
      then none
      else if ltb 1600 (plain_len + 4)
      then none
      else if difference 0 (take cm_tag_len auth) (drop plain_len packet) != 0
      then none
      else some (plain_len, copy_at header_len plain packet)
