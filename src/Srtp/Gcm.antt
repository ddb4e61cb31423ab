-- ===== src/Srtp/Gcm.antt =====
-- The AES-GCM profile of modules/common/srtp_core.rs: nonces, and the protection of RTP and RTCP
-- packets. The AEAD is a parameter, since the source includes it from a package.
pub mod Nonce
pub mod RoundTrip
pub mod Srtcp
use wave.Common.{
  ℕ, ◌+◌, ◌-◌, ◌*◌, ◌/◌, ◌%◌, ◌^◌, Option, none, some, List, [], ◌∷◌, ◌++◌, length, take, drop,
  slice, get_or, copy_at, ltb, leb, ◌==◌, if◌then◌else◌, bit_and, bit_or, bit_xor,
}
use wave.Common.Bytes.{be16, be32, from32}

abbrev pub tag_len : ℕ
tag_len = 16

-- `nonce[n] ^= input[n]`
unfoldable pub mix : List ℕ → List ℕ → List ℕ
mix (n ∷ nonce) (i ∷ input) = bit_xor n i ∷ mix nonce input
mix nonce _ = nonce

-- The bytes that go into the salt.
unfoldable pub input : ℕ → ℕ → List ℕ
input ssrc index = 0 ∷ 0 ∷ (be32 ssrc ++ (be32 (index / 2 ^ 16 % 2 ^ 32) ++ be16 (index % 2 ^ 16)))

unfoldable pub gcm_nonce : List ℕ → ℕ → ℕ → List ℕ
gcm_nonce salt ssrc index = mix salt (input ssrc index)

unfoldable pub srtcp_gcm_nonce : List ℕ → ℕ → ℕ → List ℕ
srtcp_gcm_nonce salt ssrc index =
    mix salt (0 ∷ 0 ∷ (be32 ssrc ++ (0 ∷ 0 ∷ be32 (bit_and index 0x7fffffff))))

-- `AesGcm::encrypt` and `AesGcm::decrypt` with a 128-bit key: key, nonce, additional data, text.
pub record Aead : Type 0 where
  pub encrypt : List ℕ → List ℕ → List ℕ → List ℕ → List ℕ × List ℕ
  pub decrypt : List ℕ → List ℕ → List ℕ → List ℕ → List ℕ → Option (List ℕ)

-- The word at the end of a protected compound packet.
unfoldable pub index_word : ℕ → ℕ
index_word index = bit_or (bit_and index 0x7fffffff) 0x80000000

-- `u32::from_be_bytes(packet[at..at + 4])`
unfoldable pub u32_at : List ℕ → ℕ → ℕ
u32_at packet at =
    let byte = λ (i : ℕ). get_or packet (at + i) 0 in from32 (byte 3) (byte 2) (byte 1) (byte 0)

module _ (aead : Aead) (key salt : List ℕ) where
  unfoldable pub protect_aes128_gcm : ℕ → ℕ → List ℕ → ℕ → ℕ → Option (ℕ × List ℕ)
  protect_aes128_gcm ssrc index packet header_len plain_len =
      let nonce = gcm_nonce salt ssrc index in
      let aad = take header_len packet in
      let (cipher, tag) = aead.encrypt key nonce aad (slice packet header_len plain_len) in
      if ltb plain_len header_len
      then none
      else if ltb (length packet - tag_len) plain_len
      then none
      else if ltb 256 header_len
      then none
      else some (plain_len + tag_len, copy_at plain_len tag (copy_at header_len cipher packet))

  unfoldable pub unprotect_aes128_gcm : ℕ → ℕ → List ℕ → ℕ → Option (ℕ × List ℕ)
  unprotect_aes128_gcm ssrc index packet header_len =
      let plain_len = length packet - tag_len in
      let nonce = gcm_nonce salt ssrc index in
      let opened =
        aead.decrypt key nonce (take header_len packet) (slice packet header_len plain_len)
          (drop plain_len packet) in
      if leb (length packet) tag_len
      then none
      else if ltb plain_len header_len
      then none
      else if ltb 256 header_len
      then none
      else elim opened [
        | none ↦ none
        | some plain ↦ some (plain_len, copy_at header_len plain packet)
      ]

  unfoldable pub protect_srtcp_aes128_gcm : List ℕ → ℕ → ℕ → Option (ℕ × List ℕ)
  protect_srtcp_aes128_gcm packet plain_len index =
      let ssrc = u32_at packet 4 in
      let word = be32 (index_word index) in
      let (cipher, tag) =
        aead.encrypt key (srtcp_gcm_nonce salt ssrc index) (take 8 packet ++ word)
          (slice packet 8 plain_len) in
      if ltb plain_len 8
      then none
      else if ltb (length packet - (tag_len + 4)) plain_len
      then none
      else some (
        plain_len + 4 + tag_len,
        copy_at (plain_len + 4) tag (copy_at 8 cipher (copy_at plain_len word packet)),
      )

  unfoldable pub unprotect_srtcp_aes128_gcm : List ℕ → Option (ℕ × ℕ × List ℕ)
  unprotect_srtcp_aes128_gcm packet =
      let tag_at = length packet - tag_len in
      let index_at = tag_at - 4 in
      let word = u32_at packet index_at in
      let index = bit_and word 0x7fffffff in
      let ssrc = u32_at packet 4 in
      let opened =
        aead.decrypt key (srtcp_gcm_nonce salt ssrc index)
          (take 8 packet ++ slice packet index_at tag_at) (slice packet 8 index_at)
          (drop tag_at packet) in
      if ltb (length packet) (8 + 4 + tag_len)
      then none
      else if bit_and word 0x80000000 == 0
      then none
      else elim opened [ none ↦ none | some plain ↦ some (index_at, index, copy_at 8 plain packet) ]
