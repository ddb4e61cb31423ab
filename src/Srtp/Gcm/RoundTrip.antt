-- ===== src/Srtp/Gcm/RoundTrip.antt =====
-- Opening what was protected, with the AEAD as a parameter.
use wave.Common.{
  ℕ, ◌+◌, ◌-◌, ◌<◌, ◌≤◌, ◌≡◌, refl, ap, sym, ◌∙◌, arith, Option, some, List, ◌++◌, ltb, leb, false,
  length, take, drop, slice, copy_at, append_assoc, length-append, take-append, drop-append,
  drop-drop, copy_at_over, copy_at_same, slice_middle, take_front, ◌>>=◌,
}
use wave.Srtp.Gcm.{Aead, gcm_nonce, protect_aes128_gcm, unprotect_aes128_gcm}

-- What the callers rely on: the text keeps its length, the tag has 16 bytes, and what was encrypted
-- is decrypted under the same key, nonce and additional data.
pub record IsAead (aead : Aead) : Type 0 where
  pub cipher_length : (k n a p : List ℕ) → length (aead.encrypt k n a p).0 ≡ length p
  pub tag_length : (k n a p : List ℕ) → length (aead.encrypt k n a p).1 ≡ 16
  pub opens :
      (k n a p : List ℕ)
      → aead.decrypt k n a (aead.encrypt k n a p).0 (aead.encrypt k n a p).1 ≡ some p

module _ (aead : Aead) (laws : IsAead aead) (key salt : List ℕ) where
  protected :
      (ssrc index : ℕ) (header plain room : List ℕ)
      → length header ≤ 256
      → 16 ≤ length room
      → let (cipher, tag) = aead.encrypt key (gcm_nonce salt ssrc index) header plain in
        protect_aes128_gcm aead key salt ssrc index
          (header ++ (plain ++ room))
          (length header)
          (length header + length plain)
        ≡ some (length header + length plain + 16, header ++ (cipher ++ (tag ++ drop 16 room)))
  unfolding protect_aes128_gcm
  protected ssrc index header plain room hh hr =
      let h = length header in
      let p = length plain in
      let packet = header ++ (plain ++ room) in
      let nonce = gcm_nonce salt ssrc index in
      let cipher = (aead.encrypt key nonce header plain).0 in
      let tag = (aead.encrypt key nonce header plain).1 in
      let total : length packet ≡ h + p + length room =
        omega (arith, length-append header (plain ++ room), length-append plain room) in
      let ordered : ltb (h + p) h ≡ false = ground arith in
      let fits : ltb (length packet - 16) (h + p) ≡ false = ground arith in
      let short : ltb 256 h ≡ false = ground arith in
      let text : slice packet h (h + p) ≡ plain =
        slice_middle header plain room h (h + p) refl refl in
      let enciphered : copy_at h cipher packet ≡ header ++ (cipher ++ room) =
        copy_at_same header cipher plain room h refl (laws.cipher_length key nonce header plain) in
      let tagged : copy_at (h + p) tag (header ++ (cipher ++ room))
          ≡ header ++ (cipher ++ (tag ++ drop 16 room)) =
        ap (copy_at (h + p) tag) (sym (append_assoc header cipher room))
        ∙ (copy_at_over (header ++ cipher) tag room (h + p) (
              omega (arith, length-append header cipher, laws.cipher_length key nonce header plain))
            ∙ rw
                (
                  laws.tag_length key nonce header plain,
                  append_assoc header cipher (tag ++ drop 16 room),
                )
                refl) in
      let written : List ℕ → List ℕ → Option (ℕ × List ℕ) = λ (aad t : List ℕ).
        let (c, g) = aead.encrypt key nonce aad t in
        some (h + p + 16, copy_at (h + p) g (copy_at h c packet)) in
      rw (ordered, fits, short) refl
      ∙ (ap (λ (aad : List ℕ). written aad (slice packet h (h + p)))
            (take-append header (plain ++ room))
          ∙ (ap (written header) text
              ∙ ap (λ (l : List ℕ). some (h + p + 16, l))
                  (ap (copy_at (h + p) tag) enciphered ∙ tagged)))

  opened :
      (ssrc index : ℕ) (header cipher plain tag : List ℕ)
      → length header ≤ 256
      → 0 < length header + length plain
      → length cipher ≡ length plain
      → length tag ≡ 16
      → aead.decrypt key (gcm_nonce salt ssrc index) header cipher tag ≡ some plain
      → unprotect_aes128_gcm aead key salt ssrc index (header ++ (cipher ++ tag)) (length header)
        ≡ some (length header + length plain, header ++ (plain ++ tag))
  unfolding unprotect_aes128_gcm
  opened ssrc index header cipher plain tag hh hp hc ht e =
      let h = length header in
      let packet = header ++ (cipher ++ tag) in
      let total : length packet ≡ h + length plain + 16 =
        omega (arith, length-append header (cipher ++ tag), length-append cipher tag) in
      let rest : length packet - 16 ≡ h + length plain = omega (arith, total) in
      let long : leb (length packet) 16 ≡ false = ground arith in
      let ordered : ltb (h + length plain) h ≡ false = ground arith in
      let short : ltb 256 h ≡ false = ground arith in
      let text : slice packet h (h + length plain) ≡ cipher =
        slice_middle header cipher tag h (h + length plain) refl (omega (arith, hc)) in
      let end : drop (h + length plain) packet ≡ tag =
        sym (drop-drop (length plain) h packet)
        ∙ rw (drop-append header (cipher ++ tag), sym hc, drop-append cipher tag) refl in
      let restored : copy_at h plain packet ≡ header ++ (plain ++ tag) =
        copy_at_same header plain cipher tag h refl (sym hc) in
      rw (long, rest, ordered, short, take-append header (cipher ++ tag), text, end, e)
        (ap (λ (n : ℕ). some (n, copy_at h plain packet)) rest
          ∙ ap (λ (l : List ℕ). some (h + length plain, l)) restored)

  -- A packet that was protected in a buffer with room for the tag opens under the same source and
  -- index, at its length on the wire, and has its header and its text back.
  pub unprotect-protect :
      (ssrc index : ℕ) (header plain room : List ℕ)
      → length header ≤ 256
      → 0 < length header + length plain
      → 16 ≤ length room
      → (protect_aes128_gcm aead key salt ssrc index
            (header ++ (plain ++ room))
            (length header)
            (length header + length plain)
          >>= λ (n, out).
              unprotect_aes128_gcm aead key salt ssrc index (take n out) (length header))
        ≡ some (
          length header + length plain,
          header ++ (plain ++ (aead.encrypt key (gcm_nonce salt ssrc index) header plain).1),
        )
  unprotect-protect ssrc index header plain room hh hp hr =
      let nonce = gcm_nonce salt ssrc index in
      let cipher = (aead.encrypt key nonce header plain).0 in
      let tag = (aead.encrypt key nonce header plain).1 in
      let wire : take (length header + length plain + 16)
            (header ++ (cipher ++ (tag ++ drop 16 room)))
          ≡ header ++ (cipher ++ tag) =
        ap (take (length header + length plain + 16)) (
          ap (λ (l : List ℕ). header ++ l) (sym (append_assoc cipher tag (drop 16 room)))
          ∙ sym (append_assoc header (cipher ++ tag) (drop 16 room)))
        ∙ take_front (header ++ (cipher ++ tag)) (drop 16 room) _ (
            omega (
              arith,
              length-append header (cipher ++ tag),
              length-append cipher tag,
              laws.cipher_length key nonce header plain,
              laws.tag_length key nonce header plain,
            )) in
      rw (protected ssrc index header plain room hh hr) (
        ap (λ (l : List ℕ). unprotect_aes128_gcm aead key salt ssrc index l (length header)) wire
        ∙ opened ssrc index header cipher plain tag hh hp
            (laws.cipher_length key nonce header plain) (laws.tag_length key nonce header plain)
            (laws.opens key nonce header plain))
