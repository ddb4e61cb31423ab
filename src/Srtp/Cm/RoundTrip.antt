-- ===== src/Srtp/Cm/RoundTrip.antt =====
-- Opening what was protected in the AES-CM profile, and which packets open.
use wave.Common.{
  ℕ, ◌+◌, ◌-◌, ◌/◌, ◌%◌, ◌^◌, ◌<◌, ◌≤◌, ◌≡◌, refl, ap, sym, ◌∙◌, arith, Option, some, List, [], ◌∷◌,
  ◌++◌, ltb, leb, true, false, if_split, length, take, drop, slice, replicate, copy_at,
  append_assoc, length-append, length-take, copy_at_over, copy_at_same, slice_middle, take_front,
  drop_back, ◌>>=◌, bit_or, bit_xor,
}
use wave.Common.Bits.{bit_xor_self, bit_xor-eq_zero, bit_or-eq_zero}
use wave.Common.Bytes.{be32}
use wave.Srtp.Cm.{
  Primitives, HasLengths, cm_tag_len, difference, hmac_sha1, auth_of, aes_cm_xor,
  protect_aes_cm_sha1_80, unprotect_aes_cm_sha1_80,
}
use wave.Srtp.Cm.Stream.{aes_cm_xor_twice, length-aes_cm_xor}

difference_same : (xs : List ℕ) → difference 0 xs xs ≡ 0
unfolding difference
difference_same [] = refl
difference_same (x ∷ xs) = rw (bit_xor_self x) (difference_same xs)

difference-eq_zero :
    (diff : ℕ) (xs ys : List ℕ)
    → length xs ≡ length ys
    → difference diff xs ys ≡ 0
    → (diff ≡ 0) × (xs ≡ ys)
unfolding difference
difference-eq_zero diff [] [] h e = (e, refl)
difference-eq_zero diff [] (y ∷ ys) h e = absurd (omega arith)
difference-eq_zero diff (x ∷ xs) [] h e = absurd (omega arith)
difference-eq_zero diff (x ∷ xs) (y ∷ ys) h e =
    let (both, tail) = difference-eq_zero (bit_or diff (bit_xor x y)) xs ys (omega arith) e in
    let (zero, head) = bit_or-eq_zero diff (bit_xor x y) both in
    (zero, rw (bit_xor-eq_zero x y head, tail) refl)

module _ (prims : Primitives) (lengths : HasLengths prims) (enc_key auth_key salt : List ℕ) where
  length-hmac_sha1 :
      (key bytes out : List ℕ) → length out ≡ 20 → length (hmac_sha1 prims key bytes out) ≡ 20
  unfolding hmac_sha1
  length-hmac_sha1 key bytes out h =
      if_split (λ (l : List ℕ). length l ≡ 20) (ltb 1600 (64 + length bytes)) _ _ (λ _. h)
        (λ _. lengths.sha1_length _)

  length-auth_of : (index : ℕ) (body : List ℕ) → length (auth_of prims auth_key index body) ≡ 20
  unfolding auth_of
  length-auth_of index body = length-hmac_sha1 auth_key _ (replicate 20 0) refl

  -- The tag that the packet has to carry.
  abbrev tag_of : ℕ → List ℕ → List ℕ
  tag_of index body = take cm_tag_len (auth_of prims auth_key index body)

  length-tag_of : (index : ℕ) (body : List ℕ) → length (tag_of index body) ≡ 10
  length-tag_of index body =
      omega (arith, length-take 10 (auth_of prims auth_key index body), length-auth_of index body)

  skipped :
      (index : ℕ) (body : List ℕ)
      → 1536 < length body + 4
      → auth_of prims auth_key index body ≡ replicate 20 0
  unfolding auth_of hmac_sha1
  skipped index body h =
      let long : ltb 1600 (64 + length (body ++ be32 (index / 2 ^ 16 % 2 ^ 32))) ≡ true =
        ground (arith, length-append body (be32 (index / 2 ^ 16 % 2 ^ 32))) in
      rw long refl

  -- A packet in three parts opens when its tag is the right one.
  opened :
      (ssrc index : ℕ) (header cipher tag : List ℕ)
      → 0 < length header + length cipher
      → length header + length cipher + 4 ≤ 1600
      → tag ≡ tag_of index (header ++ cipher)
      → unprotect_aes_cm_sha1_80 prims enc_key auth_key salt ssrc index
          (header ++ (cipher ++ tag))
          (length header)
        ≡ some (
          length header + length cipher,
          header ++ (aes_cm_xor prims enc_key salt ssrc index cipher ++ tag),
        )
  unfolding unprotect_aes_cm_sha1_80
  opened ssrc index header cipher tag hp hs e =
      let h = length header in
      let c = length cipher in
      let packet = header ++ (cipher ++ tag) in
      let parts : packet ≡ (header ++ cipher) ++ tag = sym (append_assoc header cipher tag) in
      let ht : length tag ≡ 10 = ap length e ∙ length-tag_of index (header ++ cipher) in
      let total : length packet ≡ h + c + 10 =
        omega (arith, length-append header (cipher ++ tag), length-append cipher tag) in
      let rest : length packet - cm_tag_len ≡ h + c = omega arith in
      let long : leb (length packet) 10 ≡ false = ground arith in
      let ordered : ltb (h + c) h ≡ false = ground arith in
      let short : ltb 1600 (h + c + 4) ≡ false = ground arith in
      let text : slice packet h (h + c) ≡ cipher =
        slice_middle header cipher tag h (h + c) refl refl in
      let body : take (h + c) packet ≡ header ++ cipher =
        ap (take (h + c)) parts
        ∙ take_front (header ++ cipher) tag (h + c) (sym (length-append header cipher)) in
      let end : drop (h + c) packet ≡ tag =
        ap (drop (h + c)) parts
        ∙ drop_back (header ++ cipher) tag (h + c) (sym (length-append header cipher)) in
      let right : difference 0 (tag_of index (header ++ cipher)) tag ≡ 0 =
        ap (difference 0 (tag_of index (header ++ cipher))) e ∙ difference_same _ in
      let plain = aes_cm_xor prims enc_key salt ssrc index cipher in
      rw (long, rest, ordered, short, body, end, right)
        (ap
            (λ (t : List ℕ).
              some (h + c, copy_at h (aes_cm_xor prims enc_key salt ssrc index t) packet))
            text
          ∙ ap (λ (l : List ℕ). some (h + c, l))
              (copy_at_same header plain cipher tag h refl
                (length-aes_cm_xor prims lengths enc_key salt ssrc index cipher)))

  protected :
      (ssrc index : ℕ) (header plain room : List ℕ)
      → length header + length plain + 4 ≤ 1600
      → 10 ≤ length room
      → let cipher = aes_cm_xor prims enc_key salt ssrc index plain in
        protect_aes_cm_sha1_80 prims enc_key auth_key salt ssrc index
          (header ++ (plain ++ room))
          (length header)
          (length header + length plain)
        ≡ some (
          length header + length plain + 10,
          (header ++ (cipher ++ tag_of index (header ++ cipher))) ++ drop 10 room,
        )
  unfolding protect_aes_cm_sha1_80
  protected ssrc index header plain room hs hr =
      let h = length header in
      let p = length plain in
      let packet = header ++ (plain ++ room) in
      let cipher = aes_cm_xor prims enc_key salt ssrc index plain in
      let hc = length-aes_cm_xor prims lengths enc_key salt ssrc index plain in
      let tag = tag_of index (header ++ cipher) in
      let total : length packet ≡ h + p + length room =
        omega (arith, length-append header (plain ++ room), length-append plain room) in
      let ordered : ltb (h + p) h ≡ false = ground arith in
      let fits : ltb (length packet - 10) (h + p) ≡ false = ground arith in
      let short : ltb 1600 (h + p + 4) ≡ false = ground arith in
      let text : slice packet h (h + p) ≡ plain =
        slice_middle header plain room h (h + p) refl refl in
      let here : h + p ≡ length (header ++ cipher) =
        omega (arith, length-append header cipher, hc) in
      let enciphered : copy_at h cipher packet ≡ (header ++ cipher) ++ room =
        copy_at_same header cipher plain room h refl hc ∙ sym (append_assoc header cipher room) in
      let body : take (h + p) ((header ++ cipher) ++ room) ≡ header ++ cipher =
        take_front (header ++ cipher) room (h + p) here in
      let tagged : copy_at (h + p) tag ((header ++ cipher) ++ room)
          ≡ (header ++ (cipher ++ tag)) ++ drop 10 room =
        copy_at_over (header ++ cipher) tag room (h + p) here
        ∙ (ap (λ (k : ℕ). (header ++ cipher) ++ (tag ++ drop k room))
              (length-tag_of index (header ++ cipher))
            ∙ (sym (append_assoc (header ++ cipher) tag (drop 10 room))
                ∙ ap (λ (l : List ℕ). l ++ drop 10 room) (append_assoc header cipher tag))) in
      let out : List ℕ → Option (ℕ × List ℕ) =
        λ buf. some (h + p + 10, copy_at (h + p) (tag_of index (take (h + p) buf)) buf) in
      rw (ordered, fits, short) refl
      ∙ (ap (λ (t : List ℕ). out (copy_at h (aes_cm_xor prims enc_key salt ssrc index t) packet))
            text
          ∙ (ap out enciphered
              ∙ (ap
                    (λ (b : List ℕ).
                      some
                        (h + p + 10, copy_at (h + p) (tag_of index b) ((header ++ cipher) ++ room)))
                    body
                  ∙ ap (λ (l : List ℕ). some (h + p + 10, l)) tagged)))

  -- A packet that was protected in a buffer with room for the tag, and that fits the 1600 bytes with
  -- its rollover counter, opens under the same keys, source and index, at its length on the wire, and
  -- has its header and its text back.
  pub unprotect_cm-protect_cm :
      (ssrc index : ℕ) (header plain room : List ℕ)
      → 0 < length header + length plain
      → length header + length plain + 4 ≤ 1600
      → 10 ≤ length room
      → (protect_aes_cm_sha1_80 prims enc_key auth_key salt ssrc index
            (header ++ (plain ++ room))
            (length header)
            (length header + length plain)
          >>= λ (n, out).
              unprotect_aes_cm_sha1_80 prims enc_key auth_key salt ssrc index
                (take n out)
                (length header)
              >>= λ (n', text). some (take n' text))
        ≡ some (header ++ plain)
  unprotect_cm-protect_cm ssrc index header plain room hp hs hr =
      let n = length header + length plain in
      let cipher = aes_cm_xor prims enc_key salt ssrc index plain in
      let hc = length-aes_cm_xor prims lengths enc_key salt ssrc index plain in
      let tag = tag_of index (header ++ cipher) in
      let sent = header ++ (cipher ++ tag) in
      let wire : take (n + 10) (sent ++ drop 10 room) ≡ sent =
        take_front sent (drop 10 room) (n + 10) (
          omega (
            arith,
            length-append header (cipher ++ tag),
            length-append cipher tag,
            hc,
            length-tag_of index (header ++ cipher),
          )) in
      let back : take (length header + length cipher) (header ++ (plain ++ tag)) ≡ header ++ plain =
        ap (take (length header + length cipher)) (sym (append_assoc header plain tag))
        ∙ take_front (header ++ plain) tag (length header + length cipher)
            (omega (arith, length-append header plain, hc)) in
      rw
        (
          protected ssrc index header plain room hs hr,
          wire,
          opened ssrc index header cipher tag (omega (arith, hc)) (omega (arith, hc)) refl,
          aes_cm_xor_twice prims lengths enc_key salt ssrc index plain,
          back,
        )
        refl

  -- A packet of 1533 to 1596 bytes before its tag opens under every key when its tag is ten zeros:
  -- it is too long for the buffer of `hmac_sha1`, which then leaves the tag at zero.
  pub unprotect-zero_tag :
      (ssrc index : ℕ) (header cipher : List ℕ)
      → 1536 < length header + length cipher + 4
      → length header + length cipher + 4 ≤ 1600
      → unprotect_aes_cm_sha1_80 prims enc_key auth_key salt ssrc index
          (header ++ (cipher ++ replicate 10 0))
          (length header)
        ≡ some (
          length header + length cipher,
          header ++ (aes_cm_xor prims enc_key salt ssrc index cipher ++ replicate 10 0),
        )
  unprotect-zero_tag ssrc index header cipher hl hs =
      opened ssrc index header cipher (replicate 10 0) (omega arith) hs (
        ap (take 10)
          (sym (skipped index (header ++ cipher) (omega (arith, length-append header cipher)))))
