-- ===== src/Stun/Message/RoundTrip.antt =====
-- A message that is built attribute by attribute is parsed and searched.
use wave.Common.{
  ℕ, suc, ◌+◌, ◌-◌, ◌*◌, ◌/◌, ◌%◌, ◌^◌, ◌≤◌, ◌<◌, ◌≡◌, ◌∙◌, refl, ap, sym, arith, true, false,
  Option, some, ◌>>=◌, List, [], ◌∷◌, ◌++◌, ltb, length, take, take-append, length-append,
  append_assoc, drop, drop-drop, All, bit_and,
}
use wave.Common.Bytes.{be16, be32, from16-bytes, u8}
use wave.Stun.Message.{
  Header, header_len, magic, message_type, is_plausible, parse_header, write_header, set_length,
  find_attribute, find_from, unknown_from, first_unknown_required,
}
use wave.Stun.Message.Unknown.{first_unknown, unknown_from_lem}
use wave.Stun.Message.Types.{message_type_lem}
use wave.Stun.Message.Attributes.{
  Attrs, IsAttr, attr_bytes, length-attr_bytes, padded_len-bounds, section_bytes, first_value,
  bytes_at, find_from_lem, append_all, append_all-written,
}

-- A message as its sender builds it: the header, its attributes, and then the length.
unfoldable pub compose : ℕ → ℕ → List ℕ → Attrs → List ℕ → Option (ℕ × List ℕ)
compose class method txn attrs out = do
  (at, headed) ← write_header class method txn out
  (end, full) ← append_all attrs headed at
  sized ← set_length full end
  some (end, sized)

abbrev head_bytes : ℕ → ℕ → List ℕ → List ℕ
head_bytes typ len txn = be16 typ ++ (be16 len ++ (be32 magic ++ txn))

write_header-written :
    (class method : ℕ) (txn dst : List ℕ)
    → length txn ≡ 12
    → 20 ≤ length dst
    → write_header class method txn dst
      ≡ some (20, head_bytes (message_type class method) 0 txn ++ drop 20 dst)
unfolding write_header
write_header-written class method txn dst ht room =
    let typ = message_type class method in
    let end : 8 + length txn ≡ 20 = omega arith in
    let open_room : ltb (length dst) header_len ≡ false = ground arith in
    rw (open_room, end) (rw (drop-drop 2 2 dst, drop-drop 4 4 dst, drop-drop 12 8 dst) refl)

section-bounds :
    (attrs : Attrs)
    → (length (section_bytes attrs) % 4 ≡ 0) × (4 * length attrs ≤ length (section_bytes attrs))
unfolding section_bytes
section-bounds [] = omega arith
section-bounds ((typ, value) ∷ attrs) = omega (
  arith,
  section-bounds attrs,
  length-append (attr_bytes typ value) (section_bytes attrs),
  length-attr_bytes typ value,
  padded_len-bounds (length value),
)

set_length-written :
    (typ len : ℕ) (txn tail : List ℕ)
    → length txn ≡ 12
    → len < 2 ^ 16
    → set_length (head_bytes typ 0 txn ++ tail) (20 + len) ≡ some (head_bytes typ len txn ++ tail)
unfolding set_length
set_length-written typ len txn tail ht hl =
    let body : 20 + len - 20 ≡ len = omega arith in rw body (ground (arith, length-append txn tail))

is_plausible-written :
    (typ len : ℕ) (txn tail : List ℕ)
    → bit_and (u8 (typ / 2 ^ 8)) 0xc0 ≡ 0
    → length txn ≡ 12
    → is_plausible (head_bytes typ len txn ++ tail) ≡ true
unfolding is_plausible
is_plausible-written typ len txn tail clear ht = rw clear (ground (arith, length-append txn tail))

parse_header-written :
    (class method len : ℕ) (txn tail : List ℕ)
    → class < 4
    → method < 4096
    → length txn ≡ 12
    → len < 2 ^ 16
    → len % 4 ≡ 0
    → len ≤ length tail
    → parse_header (head_bytes (message_type class method) len txn ++ tail)
      ≡ some (record { class = class; method = method; length = len; txn = txn })
unfolding parse_header
parse_header-written class method len txn tail hc hm ht hl h4 room =
    let (ec, em, clear, word) = message_type_lem class method hc hm in
    let plausible = is_plausible-written (message_type class method) len txn tail clear ht in
    let same_txn : take 12 (txn ++ tail) ≡ txn =
      ap (λ (n : ℕ). take n (txn ++ tail)) (sym ht) ∙ take-append txn tail in
    rw (from16-bytes (message_type class method) word, from16-bytes len hl, plausible)
      (ground (arith, ec, em, length-append txn tail, same_txn))

compose-written :
    (class method : ℕ) (txn dst : List ℕ) (attrs : Attrs)
    → length txn ≡ 12
    → All IsAttr attrs
    → length (section_bytes attrs) < 2 ^ 16
    → 20 + length (section_bytes attrs) ≤ length dst
    → compose class method txn attrs dst
      ≡ some (
        20 + length (section_bytes attrs),
        (head_bytes (message_type class method) (length (section_bytes attrs)) txn
              ++ section_bytes attrs)
            ++ drop (20 + length (section_bytes attrs)) dst,
      )
unfolding compose
compose-written class method txn dst attrs ht hs hl room =
    let mt = message_type class method in
    let sb = section_bytes attrs in
    let len = length sb in
    let head0 = head_bytes mt 0 txn in
    let tail = drop (20 + len) dst in
    let head_size : length head0 ≡ 20 = omega arith in
    let size : length (head0 ++ sb) ≡ 20 + len = omega (arith, length-append head0 sb) in
    let appended : append_all attrs (head0 ++ drop 20 dst) 20
        ≡ some (20 + len, (head0 ++ sb) ++ tail) =
      ap (λ (t : ℕ). append_all attrs (head0 ++ drop t dst) t) (sym head_size)
      ∙ append_all-written attrs head0 dst hs (omega arith)
      ∙ ap (λ (t : ℕ). some (t, (head0 ++ sb) ++ drop t dst)) size in
    let sized : set_length ((head0 ++ sb) ++ tail) (20 + len)
        ≡ some ((head_bytes mt len txn ++ sb) ++ tail) =
      ap (λ l. set_length l (20 + len)) (append_assoc head0 sb tail)
      ∙ set_length-written mt len txn (sb ++ tail) ht hl
      ∙ ap some (sym (append_assoc (head_bytes mt len txn) sb tail)) in
    rw (write_header-written class method txn dst ht (omega arith)) (rw appended (rw sized refl))

found :
    (head rest : List ℕ) (attrs : Attrs) (typ : ℕ) (p : ℕ × ℕ × List ℕ)
    → All IsAttr attrs
    → length head ≡ 20
    → 4 * length attrs ≤ length (section_bytes attrs)
    → bytes_at ((head ++ section_bytes attrs) ++ rest) (
        find_attribute
          ((head ++ section_bytes attrs) ++ rest)
          (record { class = p.0; method = p.1; length = length (section_bytes attrs); txn = p.2 })
          typ)
      ≡ first_value attrs typ
unfolding find_attribute
found head rest attrs typ p hs size count =
    let buf = (head ++ section_bytes attrs) ++ rest in
    let len = length (section_bytes attrs) in
    ap (λ (t : ℕ). bytes_at buf (find_from (suc len) buf typ t (20 + len))) (sym size)
    ∙ find_from_lem attrs head rest buf typ (suc len) (20 + len) hs (omega arith)
        (append_assoc head (section_bytes attrs) rest) (omega arith)

unknown :
    (head rest known : List ℕ) (attrs : Attrs) (p : ℕ × ℕ × List ℕ)
    → All IsAttr attrs
    → length head ≡ 20
    → 4 * length attrs ≤ length (section_bytes attrs)
    → first_unknown_required
        ((head ++ section_bytes attrs) ++ rest)
        (record { class = p.0; method = p.1; length = length (section_bytes attrs); txn = p.2 })
        known
      ≡ first_unknown attrs known
unfolding first_unknown_required
unknown head rest known attrs p hs size count =
    let buf = (head ++ section_bytes attrs) ++ rest in
    let len = length (section_bytes attrs) in
    ap (λ (t : ℕ). unknown_from (suc len) buf known t (20 + len)) (sym size)
    ∙ unknown_from_lem attrs head rest buf known (suc len) (20 + len) hs (omega arith)
        (append_assoc head (section_bytes attrs) rest) (omega arith)

-- A message of a two-bit class, a twelve-bit method, a transaction of 12 bytes and attributes whose bytes
-- number less than 2^16 is composed in every buffer with room for it. In front of anything, the
-- bytes parse to the class, the method, the length of the attributes and the transaction;
-- the search for a type finds the value of its first attribute, or nothing when there is none; and the
-- search for a required attribute of a type that is not known finds the first one, or nothing.
pub parse-compose :
    (class method typ : ℕ) (txn dst rest known : List ℕ) (attrs : Attrs)
    → class < 4
    → method < 4096
    → length txn ≡ 12
    → All IsAttr attrs
    → length (section_bytes attrs) < 2 ^ 16
    → 20 + length (section_bytes attrs) ≤ length dst
    → (bytes : List ℕ) × (h : Header) × (compose class method txn attrs dst
        ≡ some (length bytes, bytes ++ drop (length bytes) dst))
      × (parse_header (bytes ++ rest) ≡ some h)
      × (h ≡ record {
        class = class;
        method = method;
        length = length (section_bytes attrs);
        txn = txn;
      })
      × (bytes_at (bytes ++ rest) (find_attribute (bytes ++ rest) h typ) ≡ first_value attrs typ)
      × (first_unknown_required (bytes ++ rest) h known ≡ first_unknown attrs known)
parse-compose class method typ txn dst rest known attrs hc hm ht hs hl room =
    let mt = message_type class method in
    let sb = section_bytes attrs in
    let len = length sb in
    let (whole_words, count) = section-bounds attrs in
    let head_size : length (head_bytes mt len txn) ≡ 20 = omega arith in
    let size : length (head_bytes mt len txn ++ sb) ≡ 20 + len =
      omega (arith, length-append (head_bytes mt len txn) sb) in
    (
      head_bytes mt len txn ++ sb,
      record { class = class; method = method; length = len; txn = txn },
      compose-written class method txn dst attrs ht hs hl room
          ∙ ap (λ (t : ℕ). some (t, (head_bytes mt len txn ++ sb) ++ drop t dst)) (sym size),
      ap parse_header (append_assoc (head_bytes mt len txn) sb rest)
          ∙ parse_header-written class method len txn (sb ++ rest) hc hm ht hl whole_words
              (omega (arith, length-append sb rest)),
      refl,
      found (head_bytes mt len txn) rest attrs typ (class, method, txn) hs head_size count,
      unknown (head_bytes mt len txn) rest known attrs (class, method, txn) hs head_size count,
    )
