-- ===== src/Rtp/Header/Mid.antt =====
-- `rtp_mid` on the elements of a one-byte header extension (RFC 8285).
use wave.Common.{
  ℕ, zero, suc, ◌+◌, ◌-◌, ◌*◌, ◌/◌, ◌%◌, ◌≤◌, ◌<◌, ◌≡◌, ◌≢◌, refl, ap, sym, ◌∙◌, arith, true, false,
  ◌||◌, List, [], ◌∷◌, ◌++◌, leb, ltb, ◌==◌, if◌then◌else◌, bit_and, length, get_or, slice, All,
  length-append, append_assoc, slice-append, get_or-append_here,
}
use wave.Common.Bits.{bit_and-mask}
use wave.Common.Bytes.{from16}
use wave.Rtp.Header.{Header, at_byte, csrc_end, find_mid, mid}

-- An element: a byte of padding, or data under an id.
pub data Element : Type 0 where
  padding : Element
  element : (id : ℕ) (content : List ℕ) → Element

-- One byte of id and length, and 1 to 16 bytes.
abbrev pub IsElement : Element → Type 0
IsElement padding = ◌≡◌ {A = ℕ} 0 0
IsElement (element id content) = (1 ≤ id) × (id ≤ 14) × (1 ≤ length content) × (length content ≤ 16)

abbrev pub element_bytes : Element → List ℕ
element_bytes padding = 0 ∷ []
element_bytes (element id content) = (id * 16 + (length content - 1)) ∷ content

abbrev pub all_bytes : List Element → List ℕ
all_bytes [] = []
all_bytes (e ∷ es) = element_bytes e ++ all_bytes es

-- The content of the first element with id 10.
abbrev pub first_mid : List Element → List ℕ
first_mid [] = []
first_mid (padding ∷ es) = first_mid es
first_mid (element id content ∷ es) = if id == 10 then content else first_mid es

-- One round of the search at a byte `d` that is known.
find_mid_next :
    (rounds : ℕ) (pkt : List ℕ) (at end d : ℕ)
    → at_byte pkt at ≡ d
    → at < end
    → find_mid (suc rounds) pkt at end ≡ (
        if d == 0
        then find_mid rounds pkt (at + 1) end
        else if d / 16 == 15
        then []
        else if ltb end (at + 1 + (d % 16 + 1))
        then []
        else if d / 16 == 10
        then slice pkt (at + 1) (at + 1 + (d % 16 + 1))
        else find_mid rounds pkt (at + 1 + (d % 16 + 1)) end)
unfolding find_mid
find_mid_next rounds pkt at end d e h =
    let low : bit_and d 0x0f ≡ d % 16 = bit_and-mask 4 d in
    let more : leb end at ≡ false = ground arith in rw (e, low, more) refl

find_mid_end : (rounds : ℕ) (pkt : List ℕ) (at end : ℕ) → end ≤ at → find_mid rounds pkt at end ≡ []
unfolding find_mid
find_mid_end zero pkt at end h = refl
find_mid_end (suc rounds) pkt at end h = let over : leb end at ≡ true = ground arith in rw over refl

byte_here :
    (pre more rest : List ℕ) (at d : ℕ)
    → at ≡ length pre
    → at_byte ((pre ++ d ∷ more) ++ rest) at ≡ d
byte_here pre more rest at d e =
    ap (λ l. get_or l at 0) (append_assoc pre (d ∷ more) rest)
    ∙ get_or-append_here pre (more ++ rest) d 0 at e

-- What is found behind an element is found in the packet with that element.
regrouped :
    (rounds : ℕ) (x : Element) (es : List Element) (pre rest : List ℕ) (at : ℕ) {r : List ℕ}
    → find_mid rounds
        (((pre ++ element_bytes x) ++ all_bytes es) ++ rest)
        (at + length (element_bytes x))
        (at + length (element_bytes x) + length (all_bytes es))
      ≡ r
    → find_mid rounds
        ((pre ++ all_bytes (x ∷ es)) ++ rest)
        (at + length (element_bytes x))
        (at + length (all_bytes (x ∷ es)))
      ≡ r
regrouped rounds x es pre rest at h =
    let end : at + length (element_bytes x ++ all_bytes es)
        ≡ at + length (element_bytes x) + length (all_bytes es) =
      omega (arith, length-append (element_bytes x) (all_bytes es)) in
    rw (end, sym (append_assoc pre (element_bytes x) (all_bytes es))) h

-- The search from the elements `es` that stand between `pre` and `rest`.
find_mid_lem :
    (rounds : ℕ) (es : List Element) (pre rest : List ℕ) (at : ℕ)
    → All IsElement es
    → at ≡ length pre
    → length (all_bytes es) ≤ rounds
    → find_mid rounds ((pre ++ all_bytes es) ++ rest) at (at + length (all_bytes es)) ≡ first_mid es
find_mid_lem rounds [] pre rest at h e k =
    find_mid_end rounds ((pre ++ []) ++ rest) at (at + 0) (omega arith)
find_mid_lem zero (padding ∷ es) pre rest at h e k = absurd (omega arith)
find_mid_lem zero (element id content ∷ es) pre rest at h e k = absurd (omega arith)
find_mid_lem (suc rounds) (padding ∷ es) pre rest at (p, h) e k =
    let pkt = (pre ++ 0 ∷ all_bytes es) ++ rest in
    let end = at + length (all_bytes (padding ∷ es)) in
    find_mid_next rounds pkt at end 0 (byte_here pre (all_bytes es) rest at 0 e) (omega arith)
    ∙ regrouped rounds padding es pre rest at (
        find_mid_lem rounds es (pre ++ 0 ∷ []) rest (at + 1) h
          (omega (arith, length-append pre (0 ∷ []))) (omega arith))
find_mid_lem (suc rounds) (element id content ∷ es) pre rest at ((low, high, one, sixteen), h) e k =
    let d = id * 16 + (length content - 1) in
    let pkt = (pre ++ ((d ∷ content) ++ all_bytes es)) ++ rest in
    let end = at + length (all_bytes (element id content ∷ es)) in
    let id_is : d / 16 ≡ id = omega arith in
    let len_is : d % 16 + 1 ≡ length content = omega arith in
    let some_byte : (d == 0) ≡ false = ground arith in
    let not_last : (id == 15) ≡ false = ground arith in
    let fits : ltb end (at + 1 + length content) ≡ false =
      ground (arith, length-append content (all_bytes es)) in
    let grown : length (pre ++ d ∷ []) ≡ at + 1 = omega (arith, length-append pre (d ∷ [])) in
    let behind : at + 1 + length content ≡ at + length (d ∷ content) = omega arith in
    let found : slice pkt (at + 1) (at + 1 + length content) ≡ content =
      ap (λ l. slice l (at + 1) (at + 1 + length content)) (simp append_assoc refl)
      ∙ slice-append (pre ++ d ∷ []) content (all_bytes es ++ rest) (at + 1)
          (at + 1 + length content) (sym grown) refl in
    let rest_is = regrouped rounds (element id content) es pre rest at (
      find_mid_lem rounds es (pre ++ d ∷ content) rest (at + length (d ∷ content)) h
        (omega (arith, length-append pre (d ∷ content)))
        (omega (arith, length-append content (all_bytes es)))) in
    find_mid_next rounds pkt at end d (byte_here pre (content ++ all_bytes es) rest at d e)
      (omega arith)
    ∙ rw (id_is, len_is, some_byte, not_last, fits, found, behind)
        (ap (λ t. if id == 10 then content else t) rest_is)

-- In a packet whose one-byte extension holds the elements `es`, padded to whole words, behind the CSRC
-- list, `rtp_mid` returns the content of the first element with id 10, and the empty slice when there
-- is none. The packet has a fixed header and a payload start behind the extension's length field, both
-- inside it, and its length is a number of the target.
pub mid-elements :
    (usize_max : ℕ) (header : Header) (es : List Element) (pre rest : List ℕ)
    → All IsElement es
    → let pkt = (pre ++ all_bytes es) ++ rest in
      let ext = csrc_end pkt in
      length pre ≡ ext + 4
      → length pkt ≤ usize_max
      → header.payload_start ≤ length pkt
      → ext + 4 ≤ header.payload_start
      → bit_and (at_byte pkt 0) 0x10 ≢ 0
      → at_byte pkt ext ≡ 0xbe
      → at_byte pkt (ext + 1) ≡ 0xde
      → from16 (at_byte pkt (ext + 3)) (at_byte pkt (ext + 2)) * 4 ≡ length (all_bytes es)
      → mid usize_max pkt header ≡ first_mid es
unfolding mid
mid-elements usize_max header es pre rest h start room inside behind x p0 p1 size =
    let pkt = (pre ++ all_bytes es) ++ rest in
    let len : length pkt ≡ length pre + length (all_bytes es) + length rest =
      omega (arith, length-append (pre ++ all_bytes es) rest, length-append pre (all_bytes es)) in
    let whole : (ltb (length pkt) 12 || ltb (length pkt) header.payload_start) ≡ false =
      ground arith in
    let present : (bit_and (at_byte pkt 0) 0x10 == 0 || ltb header.payload_start (csrc_end pkt + 4))
        ≡ false =
      ground arith in
    let bounded : (ltb usize_max (csrc_end pkt + 4 + length (all_bytes es))
          || ltb (length pkt) (csrc_end pkt + 4 + length (all_bytes es)))
        ≡ false =
      ground arith in
    rw (size, p0, p1, whole, present, bounded)
      (find_mid_lem (length (all_bytes es)) es pre rest (csrc_end pkt + 4) h (sym start)
        (omega arith))
