-- ===== src/Srtp/Gcm/Srtcp.antt =====
-- Opening a compound RTCP packet that was protected.
use wave.Common.{
  ℕ, ◌+◌, ◌-◌, ◌*◌, ◌^◌, ◌<◌, ◌≤◌, ◌≡◌, refl, ap, sym, ◌∙◌, arith, Option, some, List, [], ◌∷◌,
  ◌++◌, ltb, ◌==◌, false, length, take, drop, slice, copy_at, append_assoc, length-append,
  drop-drop, copy_at_over, copy_at_same, slice_middle, take_front, drop_back, ◌>>=◌, bit_and,
  bit_or, get_or-append_right,
}
use wave.Common.Bits.{bit_and-mask, bit_and-pow, bit, bit_or_disjoint_right}
use wave.Common.Bytes.{be32, from32, from32-bytes}
use wave.Srtp.Gcm.{
  Aead, srtcp_gcm_nonce, index_word, protect_srtcp_aes128_gcm, unprotect_srtcp_aes128_gcm, u32_at,
  tag_len,
}
use wave.Srtp.Gcm.RoundTrip.{IsAead}

-- The first eight bytes: version and count, packet type, length, source.
pub record Head : Type 0 where
  pub first : ℕ
  pub kind : ℕ
  pub len0 : ℕ
  pub len1 : ℕ
  pub s0 : ℕ
  pub s1 : ℕ
  pub s2 : ℕ
  pub s3 : ℕ

abbrev pub head_bytes : Head → List ℕ
head_bytes h = h.first ∷ h.kind ∷ h.len0 ∷ h.len1 ∷ h.s0 ∷ h.s1 ∷ h.s2 ∷ h.s3 ∷ []

abbrev source : Head → ℕ
source h = from32 h.s3 h.s2 h.s1 h.s0

word_lem : (index : ℕ) → index < 2 ^ 31 → index_word index ≡ index + 2 ^ 31
unfolding index_word
word_lem index h =
    ap (λ (t : ℕ). bit_or t 0x80000000) (bit_and-mask 31 index ∙ omega arith)
    ∙ (bit_or_disjoint_right 31 1 index h ∙ omega arith)

word_index : (index : ℕ) → index < 2 ^ 31 → bit_and (index_word index) 0x7fffffff ≡ index
word_index index h =
    ap (λ (t : ℕ). bit_and t 0x7fffffff) (word_lem index h)
    ∙ (bit_and-mask 31 (index + 2 ^ 31) ∙ omega arith)

word_flag : (index : ℕ) → index < 2 ^ 31 → (bit_and (index_word index) 0x80000000 == 0) ≡ false
word_flag index h =
    let e : bit_and (index_word index) 0x80000000 ≡ bit (index_word index) 31 * 2 ^ 31 =
      bit_and-pow 31 (index_word index) in
    ground (arith, word_lem index h)

-- The three writes, in the order of the source.
written :
    (head plain cipher word tag room : List ℕ) (n : ℕ)
    → n ≡ length head + length plain
    → length cipher ≡ length plain
    → length word ≡ 4
    → length tag ≡ 16
    → copy_at (n + 4) tag (copy_at (length head) cipher (copy_at n word (head ++ (plain ++ room))))
      ≡ head ++ (cipher ++ (word ++ (tag ++ drop 20 room)))
written head plain cipher word tag room n hn hc hw ht =
    ap (λ (l : List ℕ). copy_at (n + 4) tag (copy_at (length head) cipher l)) first
    ∙ (ap (copy_at (n + 4) tag) second ∙ third)
  where
    first : copy_at n word (head ++ (plain ++ room)) ≡ head ++ (plain ++ (word ++ drop 4 room))
    first =
        ap (copy_at n word) (sym (append_assoc head plain room))
        ∙ (copy_at_over (head ++ plain) word room n (omega (arith, length-append head plain))
            ∙ rw (hw, append_assoc head plain (word ++ drop 4 room)) refl)

    second :
        copy_at (length head) cipher (head ++ (plain ++ (word ++ drop 4 room)))
        ≡ head ++ (cipher ++ (word ++ drop 4 room))
    second = copy_at_same head cipher plain (word ++ drop 4 room) (length head) refl hc

    front : head ++ (cipher ++ (word ++ drop 4 room)) ≡ (head ++ (cipher ++ word)) ++ drop 4 room
    front =
        ap (λ (l : List ℕ). head ++ l) (sym (append_assoc cipher word (drop 4 room)))
        ∙ sym (append_assoc head (cipher ++ word) (drop 4 room))

    third :
        copy_at (n + 4) tag (head ++ (cipher ++ (word ++ drop 4 room)))
        ≡ head ++ (cipher ++ (word ++ (tag ++ drop 20 room)))
    third =
        ap (copy_at (n + 4) tag) front
        ∙ (copy_at_over (head ++ (cipher ++ word)) tag (drop 4 room) (n + 4)
              (omega (arith, length-append head (cipher ++ word), length-append cipher word))
            ∙ rw
                (
                  ht,
                  drop-drop 16 4 room,
                  append_assoc head (cipher ++ word) (tag ++ drop 20 room),
                  append_assoc cipher word (tag ++ drop 20 room),
                )
                refl)

source_at : (h : Head) (rest : List ℕ) → u32_at (head_bytes h ++ rest) 4 ≡ source h
unfolding u32_at
source_at h rest = refl

word_at :
    (head cipher tag : List ℕ) (at word : ℕ)
    → at ≡ length head + length cipher
    → word < 2 ^ 32
    → u32_at (head ++ (cipher ++ (be32 word ++ tag))) at ≡ word
unfolding u32_at
word_at head cipher tag at word e h =
    let pre = head ++ cipher in
    let n : at ≡ length pre = omega (arith, length-append head cipher) in
    rw
      (
        n,
        sym (append_assoc head cipher (be32 word ++ tag)),
        get_or-append_right pre (be32 word ++ tag) 0 0,
        get_or-append_right pre (be32 word ++ tag) 1 0,
        get_or-append_right pre (be32 word ++ tag) 2 0,
        get_or-append_right pre (be32 word ++ tag) 3 0,
      )
      (from32-bytes word h)

module _ (aead : Aead) (laws : IsAead aead) (key salt : List ℕ) where
  protected :
      (index : ℕ) (h : Head) (plain room : List ℕ)
      → 20 ≤ length room
      → let (cipher, tag) =
          aead.encrypt key
            (srtcp_gcm_nonce salt (source h) index)
            (head_bytes h ++ be32 (index_word index))
            plain in
        protect_srtcp_aes128_gcm aead key salt
          (head_bytes h ++ (plain ++ room))
          (8 + length plain)
          index
        ≡ some (
          8 + length plain + 4 + 16,
          head_bytes h ++ (cipher ++ (be32 (index_word index) ++ (tag ++ drop 20 room))),
        )
  unfolding protect_srtcp_aes128_gcm u32_at
  protected index h plain room hr =
      let head = head_bytes h in
      let p = length plain in
      let packet = head ++ (plain ++ room) in
      let word = be32 (index_word index) in
      let nonce = srtcp_gcm_nonce salt (source h) index in
      let cipher = (aead.encrypt key nonce (head ++ word) plain).0 in
      let tag = (aead.encrypt key nonce (head ++ word) plain).1 in
      let total : length packet ≡ 8 + p + length room = omega (arith, length-append plain room) in
      let long : ltb (8 + p) 8 ≡ false = ground arith in
      let fits : ltb (length packet - 20) (8 + p) ≡ false = ground arith in
      let text : slice packet 8 (8 + p) ≡ plain =
        slice_middle head plain room 8 (8 + p) refl refl in
      let out : List ℕ → Option (ℕ × List ℕ) = λ t.
        let (c, g) = aead.encrypt key nonce (head ++ word) t in
        some (8 + p + 4 + 16, copy_at (8 + p + 4) g (copy_at 8 c (copy_at (8 + p) word packet))) in
      rw (long, fits) refl
      ∙ (ap out text
          ∙ ap (λ (l : List ℕ). some (8 + p + 4 + 16, l))
              (written head plain cipher word tag room (8 + p) refl
                (laws.cipher_length key nonce (head ++ word) plain) refl
                (laws.tag_length key nonce (head ++ word) plain)))

  opened :
      (index : ℕ) (h : Head) (cipher plain tag : List ℕ)
      → index < 2 ^ 31
      → length cipher ≡ length plain
      → length tag ≡ 16
      → aead.decrypt key
          (srtcp_gcm_nonce salt (source h) index)
          (head_bytes h ++ be32 (index_word index))
          cipher
          tag
        ≡ some plain
      → unprotect_srtcp_aes128_gcm aead key salt
          (head_bytes h ++ (cipher ++ (be32 (index_word index) ++ tag)))
        ≡ some
            (8 + length plain, index, head_bytes h ++ (plain ++ (be32 (index_word index) ++ tag)))
  unfolding unprotect_srtcp_aes128_gcm
  opened index h cipher plain tag hi hc ht e =
      let head = head_bytes h in
      let word = be32 (index_word index) in
      let p = length plain in
      let packet = head ++ (cipher ++ (word ++ tag)) in
      let total : length packet ≡ 8 + p + 20 = omega (arith, length-append cipher (word ++ tag)) in
      let tag_at : length packet - tag_len ≡ 8 + p + 4 = omega arith in
      let index_at : 8 + p + 4 - 4 ≡ 8 + p = omega arith in
      let long : ltb (length packet) (8 + 4 + 16) ≡ false = ground arith in
      let read : u32_at packet (8 + p) ≡ index_word index =
        word_at head cipher tag (8 + p) (index_word index) (omega arith)
          (omega (arith, word_lem index hi)) in
      let aad : slice packet (8 + p) (8 + p + 4) ≡ word =
        ap (λ (l : List ℕ). slice l (8 + p) (8 + p + 4))
          (sym (append_assoc head cipher (word ++ tag)))
        ∙ slice_middle (head ++ cipher) word tag (8 + p) (8 + p + 4) (omega arith) refl in
      let text : slice packet 8 (8 + p) ≡ cipher =
        slice_middle head cipher (word ++ tag) 8 (8 + p) refl (omega (arith, hc)) in
      let end : drop (8 + p + 4) packet ≡ tag =
        ap (λ (l : List ℕ). drop (8 + p + 4) l) (sym (append_assoc head cipher (word ++ tag)))
        ∙ (ap (λ (l : List ℕ). drop (8 + p + 4) l) (sym (append_assoc (head ++ cipher) word tag))
            ∙ drop_back ((head ++ cipher) ++ word) tag (8 + p + 4)
                (omega (arith, length-append (head ++ cipher) word, length-append head cipher))) in
      let index_here : length packet - tag_len - 4 ≡ 8 + p = omega arith in
      let restored : copy_at 8 plain packet ≡ head ++ (plain ++ (word ++ tag)) =
        copy_at_same head plain cipher (word ++ tag) 8 refl (sym hc) in
      let result : ℕ → Option (ℕ × ℕ × List ℕ) =
        λ n. some (n, bit_and (u32_at packet n) 0x7fffffff, copy_at 8 plain packet) in
      rw
        (
          long,
          tag_at,
          index_at,
          read,
          word_flag index hi,
          word_index index hi,
          source_at h (cipher ++ (word ++ tag)),
          aad,
          text,
          end,
          e,
        )
        (ap result index_here
          ∙ (ap (λ (v : ℕ). some (8 + p, bit_and v 0x7fffffff, copy_at 8 plain packet)) read
              ∙ (ap (λ (v : ℕ). some (8 + p, v, copy_at 8 plain packet)) (word_index index hi)
                  ∙ ap (λ (l : List ℕ). some (8 + p, index, l)) restored)))

  -- A compound packet that was protected in a buffer with room for the index and the tag opens, at
  -- its length on the wire, with the same 31-bit index, and has its first eight bytes and its text
  -- back.
  pub unprotect_srtcp-protect_srtcp :
      (index : ℕ) (h : Head) (plain room : List ℕ)
      → index < 2 ^ 31
      → 20 ≤ length room
      → (protect_srtcp_aes128_gcm aead key salt
            (head_bytes h ++ (plain ++ room))
            (8 + length plain)
            index
          >>= λ (n, out). unprotect_srtcp_aes128_gcm aead key salt (take n out))
        ≡ some (
          8 + length plain,
          index,
          head_bytes h
              ++ (plain
                  ++ (be32 (index_word index)
                      ++ (aead.encrypt key
                          (srtcp_gcm_nonce salt (source h) index)
                          (head_bytes h ++ be32 (index_word index))
                          plain).1)),
        )
  unprotect_srtcp-protect_srtcp index h plain room hi hr =
      let head = head_bytes h in
      let word = be32 (index_word index) in
      let nonce = srtcp_gcm_nonce salt (source h) index in
      let cipher = (aead.encrypt key nonce (head ++ word) plain).0 in
      let tag = (aead.encrypt key nonce (head ++ word) plain).1 in
      let hc = laws.cipher_length key nonce (head ++ word) plain in
      let ht = laws.tag_length key nonce (head ++ word) plain in
      let sent = cipher ++ (word ++ tag) in
      let rest = drop 20 room in
      let split : cipher ++ (word ++ (tag ++ rest)) ≡ sent ++ rest =
        ap (λ (l : List ℕ). cipher ++ l) (sym (append_assoc word tag rest))
        ∙ sym (append_assoc cipher (word ++ tag) rest) in
      let wire : take (8 + length plain + 4 + 16) (head ++ (cipher ++ (word ++ (tag ++ rest))))
          ≡ head ++ sent =
        ap (λ (l : List ℕ). take (8 + length plain + 4 + 16) (head ++ l)) split
        ∙ take_front (head ++ sent) rest (8 + length plain + 4 + 16)
            (omega (arith, length-append cipher (word ++ tag))) in
      rw (protected index h plain room hr) (
        ap (unprotect_srtcp_aes128_gcm aead key salt) wire
        ∙ opened index h cipher plain tag hi hc ht (laws.opens key nonce (head ++ word) plain))
