-- ===== src/Stun/Message/Attributes.antt =====
-- Attributes that are appended are found again.
use wave.Common.{
  ℕ, zero, suc, ◌+◌, ◌-◌, ◌%◌, ◌≤◌, ◌<◌, ◌≡◌, ◌∙◌, refl, ap, sym, arith, true, false, Option, none,
  some, ◌>>=◌, if◌then◌else◌, List, [], ◌∷◌, ◌++◌, ltb, ◌==◌, length, get_or, get_or-append_right,
  slice, slice-append, copy_at, copy_at_next, replicate, length-append, length-replicate,
  length-drop, ◌||◌, append_assoc, append-nil, drop, All, Bool-cases, inl, inr,
}
use wave.Common.Bytes.{IsU16, be16, from16, from16-bytes}
use wave.Stun.Message.{
  attr, end_of_section, padded_len, next_attribute, find_from, append_attribute,
}

pub padded_len-bounds :
    (len : ℕ) → (len ≤ padded_len len) × (padded_len len ≤ len + 3) × (padded_len len % 4 ≡ 0)
unfolding padded_len
padded_len-bounds len = omega arith

-- The bytes of an attribute.
unfoldable pub attr_bytes : ℕ → List ℕ → List ℕ
attr_bytes typ value =
    be16 typ
    ++ (be16 (length value) ++ (value ++ replicate (padded_len (length value) - length value) 0))

pub length-attr_bytes :
    (typ : ℕ) (value : List ℕ) → length (attr_bytes typ value) ≡ 4 + padded_len (length value)
unfolding attr_bytes
length-attr_bytes typ value = omega (
  arith,
  length-append value (replicate (padded_len (length value) - length value) 0),
  length-replicate {A = ℕ} (padded_len (length value) - length value) 0,
  padded_len-bounds (length value),
)

-- Four runs of bytes, each written right behind the one before.
four_writes :
    (pre dst value zeros : List ℕ) (typ : ℕ)
    → copy_at (length pre + 4 + length value) zeros (
        copy_at (length pre + 4) value (
          copy_at
            (length pre + 2)
            (be16 (length value))
            (copy_at (length pre) (be16 typ) (pre ++ drop (length pre) dst))))
      ≡ (pre ++ (be16 typ ++ (be16 (length value) ++ (value ++ zeros))))
        ++ drop (length pre + 4 + length value + length zeros) dst
four_writes pre dst value zeros typ =
    let at = length pre in
    let n = length value in
    let p1 = pre ++ be16 typ in
    let p2 = p1 ++ be16 n in
    let e1 : at + 2 ≡ length p1 = omega (arith, length-append pre (be16 typ)) in
    let e2 : at + 4 ≡ length p2 = omega (arith, e1, length-append p1 (be16 n)) in
    let e3 : at + 4 + n ≡ length (p2 ++ value) = omega (arith, e2, length-append p2 value) in
    let four : at + 2 + 2 ≡ at + 4 = omega arith in
    rw (copy_at_next pre (be16 typ) dst at refl) (
      rw (copy_at_next p1 (be16 n) dst (at + 2) e1, four)
        (rw (copy_at_next p2 value dst (at + 4) e2)
          (rw (copy_at_next (p2 ++ value) zeros dst (at + 4 + n) e3) (simp append_assoc refl))))

pub append_attribute-written :
    (pre dst value : List ℕ) (typ : ℕ)
    → IsU16 (length value)
    → length pre + length (attr_bytes typ value) ≤ length dst
    → append_attribute typ value (pre ++ drop (length pre) dst) (length pre)
      ≡ some (
        length (pre ++ attr_bytes typ value),
        (pre ++ attr_bytes typ value) ++ drop (length (pre ++ attr_bytes typ value)) dst,
      )
unfolding append_attribute
append_attribute-written pre dst value typ hv room =
    let at = length pre in
    let n = length value in
    let zeros : List ℕ = replicate (padded_len n - n) 0 in
    let size = length-attr_bytes typ value in
    let count = length-replicate {A = ℕ} (padded_len n - n) 0 in
    let bounds = padded_len-bounds n in
    let open_room : (ltb (length (pre ++ drop at dst)) (at + 4 + padded_len n) || ltb 65535 n)
        ≡ false =
      ground (arith, length-append pre (drop at dst), length-drop at dst) in
    let end : at + 4 + padded_len n ≡ length (pre ++ attr_bytes typ value) =
      omega (arith, length-append pre (attr_bytes typ value)) in
    let behind : at + 4 + n + length zeros ≡ length (pre ++ attr_bytes typ value) =
      omega (arith, end) in
    rw (open_room, four_writes pre dst value zeros typ, end) (rw behind (unfold attr_bytes in refl))

head_of :
    (typ : ℕ) (value rest : List ℕ)
    → IsU16 typ
    → IsU16 (length value)
    → (from16
          (get_or (attr_bytes typ value ++ rest) 1 0)
          (get_or (attr_bytes typ value ++ rest) 0 0)
        ≡ typ)
      × (from16
            (get_or (attr_bytes typ value ++ rest) 3 0)
            (get_or (attr_bytes typ value ++ rest) 2 0)
          ≡ length value)
unfolding attr_bytes
head_of typ value rest ht hv = (from16-bytes typ ht, from16-bytes (length value) hv)

-- An attribute at the end of `pre`, in a section that reaches behind it.
pub next_attribute-written :
    (pre rest value : List ℕ) (typ total : ℕ)
    → IsU16 typ
    → IsU16 (length value)
    → length pre + length (attr_bytes typ value) ≤ total
    → next_attribute (pre ++ (attr_bytes typ value ++ rest)) (length pre) total
      ≡ attr typ (length pre + 4) (length value) (length pre + length (attr_bytes typ value))
unfolding next_attribute
next_attribute-written pre rest value typ total ht hv room =
    let (type_read, len_read) = head_of typ value rest ht hv in
    let size = length-attr_bytes typ value in
    let bounds = padded_len-bounds (length value) in
    rw
      (
        get_or-append_right pre (attr_bytes typ value ++ rest) 0 0,
        get_or-append_right pre (attr_bytes typ value ++ rest) 1 0,
        get_or-append_right pre (attr_bytes typ value ++ rest) 2 0,
        get_or-append_right pre (attr_bytes typ value ++ rest) 3 0,
      )
      (rw (type_read, len_read) (ground arith))

-- A list of attributes, each a type with a value.
abbrev pub Attrs : Type 0
Attrs = List (ℕ × List ℕ)

abbrev pub IsAttr : ℕ × List ℕ → Type 0
IsAttr (typ, value) = IsU16 typ × IsU16 (length value)

unfoldable pub section_bytes : Attrs → List ℕ
section_bytes [] = []
section_bytes ((typ, value) ∷ attrs) = attr_bytes typ value ++ section_bytes attrs

-- The value of the first attribute of a type.
unfoldable pub first_value : Attrs → ℕ → Option (List ℕ)
first_value [] typ = none
first_value ((found, value) ∷ attrs) typ =
    let later = first_value attrs typ in if found == typ then some value else later

-- The bytes at a span that was found.
abbrev pub bytes_at : List ℕ → Option (ℕ × ℕ) → Option (List ℕ)
bytes_at buf none = none
bytes_at buf (some (at, len)) = some (slice buf at (at + len))

value_slice :
    (pre rest value : List ℕ) (typ : ℕ)
    → slice (pre ++ (attr_bytes typ value ++ rest)) (length pre + 4) (length pre + 4 + length value)
      ≡ value
unfolding attr_bytes
value_slice pre rest value typ =
    let zeros : List ℕ = replicate (padded_len (length value) - length value) 0 in
    let front = pre ++ (be16 typ ++ be16 (length value)) in
    let e : length pre + 4 ≡ length front =
      omega (arith, length-append pre (be16 typ ++ be16 (length value))) in
    ap (λ l. slice l (length pre + 4) (length pre + 4 + length value)) (simp append_assoc refl)
    ∙ slice-append front value (zeros ++ rest) (length pre + 4) (length pre + 4 + length value) e
        refl

find_from-hit :
    (fuel : ℕ) (buf : List ℕ) (typ at total found value_at len next : ℕ)
    → next_attribute buf at total ≡ attr found value_at len next
    → (found == typ) ≡ true
    → find_from (suc fuel) buf typ at total ≡ some (value_at, len)
unfolding find_from
find_from-hit fuel buf typ at total found value_at len next e h = rw (e, find_from, h) refl

find_from-miss :
    (fuel : ℕ) (buf : List ℕ) (typ at total found value_at len next : ℕ)
    → next_attribute buf at total ≡ attr found value_at len next
    → (found == typ) ≡ false
    → find_from (suc fuel) buf typ at total ≡ find_from fuel buf typ next total
unfolding find_from
find_from-miss fuel buf typ at total found value_at len next e h = rw (e, find_from, h) refl

find_from-end : (fuel : ℕ) (buf : List ℕ) (typ at : ℕ) → find_from (suc fuel) buf typ at at ≡ none
unfolding find_from
find_from-end fuel buf typ at =
    let e : next_attribute buf at at ≡ end_of_section = unfold next_attribute in ground arith in
    rw (e, find_from) refl

pub find_from_lem :
    (attrs : Attrs) (pre rest buf : List ℕ) (typ fuel total : ℕ)
    → All IsAttr attrs
    → length attrs < fuel
    → buf ≡ pre ++ (section_bytes attrs ++ rest)
    → total ≡ length pre + length (section_bytes attrs)
    → bytes_at buf (find_from fuel buf typ (length pre) total) ≡ first_value attrs typ
unfolding section_bytes first_value
find_from_lem attrs pre rest buf typ zero total hs hf eb et = absurd (omega arith)
find_from_lem [] pre rest buf typ (suc fuel) total hs hf eb et =
    let same : total ≡ length pre = omega arith in
    rw (same, find_from-end fuel buf typ (length pre)) refl
find_from_lem ((found, value) ∷ attrs) pre rest buf typ (suc fuel) total ((ht, hv), hs) hf eb et =
    let ab = attr_bytes found value in
    let sb = section_bytes attrs in
    let eb1 : buf ≡ pre ++ (ab ++ (sb ++ rest)) =
      eb ∙ ap (λ l. pre ++ l) (append_assoc ab sb rest) in
    let et1 : total ≡ length pre + (length ab + length sb) = omega (arith, length-append ab sb) in
    let next : length (pre ++ ab) ≡ length pre + length ab = length-append pre ab in
    let scanned : next_attribute buf (length pre) total
        ≡ attr found (length pre + 4) (length value) (length pre + length ab) =
      rw eb1 (next_attribute-written pre (sb ++ rest) value found total ht hv (omega arith)) in
    elim (Bool-cases (found == typ)) [
      | inl hit ↦
          rw (find_from-hit fuel buf typ (length pre) total found _ _ _ scanned hit, hit)
            (ap some (
              ap (λ l. slice l (length pre + 4) (length pre + 4 + length value)) eb1
              ∙ value_slice pre (sb ++ rest) value found))
      | inr miss ↦
          rw (find_from-miss fuel buf typ (length pre) total found _ _ _ scanned miss, miss, ← next)
            (find_from_lem attrs (pre ++ ab) rest buf typ fuel total hs (omega arith)
              (eb1 ∙ sym (append_assoc pre ab (sb ++ rest))) (omega arith))
    ]

-- `append_attribute` for one attribute after the other.
unfoldable pub append_all : Attrs → List ℕ → ℕ → Option (ℕ × List ℕ)
append_all [] out at = some (at, out)
append_all ((typ, value) ∷ attrs) out at = do
  (next, written) ← append_attribute typ value out at
  append_all attrs written next

pub append_all-written :
    (attrs : Attrs) (pre dst : List ℕ)
    → All IsAttr attrs
    → length pre + length (section_bytes attrs) ≤ length dst
    → append_all attrs (pre ++ drop (length pre) dst) (length pre)
      ≡ some (
        length (pre ++ section_bytes attrs),
        (pre ++ section_bytes attrs) ++ drop (length (pre ++ section_bytes attrs)) dst,
      )
unfolding append_all section_bytes
append_all-written [] pre dst hs room = rw (append-nil pre) refl
append_all-written ((typ, value) ∷ attrs) pre dst ((ht, hv), hs) room =
    let ab = attr_bytes typ value in
    let sb = section_bytes attrs in
    let size = length-append ab sb in
    rw (append_attribute-written pre dst value typ hv (omega arith)) (
      append_all-written attrs (pre ++ ab) dst hs (omega (arith, length-append pre ab))
      ∙ rw (append_assoc pre ab sb) refl)
