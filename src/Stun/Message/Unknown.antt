-- ===== src/Stun/Message/Unknown.antt =====
-- The required attribute that a receiver does not know is the first such one.
use wave.Common.{
  ℕ, zero, suc, ◌+◌, ◌<◌, ◌≡◌, ◌∙◌, refl, ap, sym, arith, not, ◌&&◌, Option, none, some,
  if◌then◌else◌, List, [], ◌∷◌, ◌++◌, length, length-append, append_assoc, All, Bool-cases, inl,
  inr,
}
use wave.Stun.Message.{
  attr, end_of_section, next_attribute, is_comprehension_required, contains, unknown_from,
}
use wave.Stun.Message.Attributes.{Attrs, IsAttr, attr_bytes, section_bytes, next_attribute-written}

-- The first type that is required and not known.
unfoldable pub first_unknown : Attrs → List ℕ → Option ℕ
first_unknown [] known = none
first_unknown ((typ, value) ∷ attrs) known =
    let later = first_unknown attrs known in
    if is_comprehension_required typ && not (contains known typ) then some typ else later

unknown_from-step :
    (fuel : ℕ) (buf known : List ℕ) (at total typ value_at len next : ℕ)
    → next_attribute buf at total ≡ attr typ value_at len next
    → unknown_from (suc fuel) buf known at total ≡ (
        if is_comprehension_required typ && not (contains known typ)
        then some typ
        else unknown_from fuel buf known next total)
unfolding unknown_from
unknown_from-step fuel buf known at total typ value_at len next e =
    elim (Bool-cases (is_comprehension_required typ)) [
      | inl r ↦ elim (Bool-cases (contains known typ)) [
        | inl k ↦ rw (e, unknown_from, r, k) refl
        | inr k ↦ rw (e, unknown_from, r, k) refl
      ]
      | inr r ↦ rw (e, unknown_from, r) refl
    ]

unknown_from-end :
    (fuel : ℕ) (buf known : List ℕ) (at : ℕ) → unknown_from (suc fuel) buf known at at ≡ none
unfolding unknown_from
unknown_from-end fuel buf known at =
    let e : next_attribute buf at at ≡ end_of_section = unfold next_attribute in ground arith in
    rw (e, unknown_from) refl

pub unknown_from_lem :
    (attrs : Attrs) (pre rest buf known : List ℕ) (fuel total : ℕ)
    → All IsAttr attrs
    → length attrs < fuel
    → buf ≡ pre ++ (section_bytes attrs ++ rest)
    → total ≡ length pre + length (section_bytes attrs)
    → unknown_from fuel buf known (length pre) total ≡ first_unknown attrs known
unfolding section_bytes first_unknown
unknown_from_lem attrs pre rest buf known zero total hs hf eb et = absurd (omega arith)
unknown_from_lem [] pre rest buf known (suc fuel) total hs hf eb et =
    let same : total ≡ length pre = omega arith in
    rw (same, unknown_from-end fuel buf known (length pre)) refl
unknown_from_lem ((typ, value) ∷ attrs) pre rest buf known (suc fuel) total ((ht, hv), hs) hf eb
      et =
    let ab = attr_bytes typ value in
    let sb = section_bytes attrs in
    let eb1 : buf ≡ pre ++ (ab ++ (sb ++ rest)) =
      eb ∙ ap (λ l. pre ++ l) (append_assoc ab sb rest) in
    let et1 : total ≡ length pre + (length ab + length sb) = omega (arith, length-append ab sb) in
    let next : length (pre ++ ab) ≡ length pre + length ab = length-append pre ab in
    let scanned : next_attribute buf (length pre) total
        ≡ attr typ (length pre + 4) (length value) (length pre + length ab) =
      rw eb1 (next_attribute-written pre (sb ++ rest) value typ total ht hv (omega arith)) in
    let later : unknown_from fuel buf known (length pre + length ab) total
        ≡ first_unknown attrs known =
      rw (← next) (
        unknown_from_lem attrs (pre ++ ab) rest buf known fuel total hs (omega arith)
          (eb1 ∙ sym (append_assoc pre ab (sb ++ rest))) (omega arith)) in
    rw (unknown_from-step fuel buf known (length pre) total typ _ _ _ scanned, later) refl
