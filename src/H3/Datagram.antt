-- ===== src/H3/Datagram.antt =====
-- `H3Datagram`, `write` and `parse` of modules/common/h3_datagram.rs.
use wave.Common.{
  ℕ, ◌+◌, ◌≤◌, ◌≡◌, refl, ap, ◌∙◌, arith, ◌||◌, Option, none, some, List, [], ◌++◌, ltb, ◌!=◌,
  if◌then◌else◌, length, drop, take, get_or, copy_at, copy_at_next, take-append, drop-append,
  length-append, length-drop, ◌⊎◌, ◌<◌, ◌∷◌, All,
}
use wave.Common.Bytes.{
  IsByte, IsU32, IsU64, le16, le32, le64, from16, from32, from64, from16-bytes, from32-bytes,
  from64-bytes,
}

abbrev pub max_payload : ℕ
max_payload = 1200

abbrev pub header_size : ℕ
header_size = 14

pub record Datagram : Type 0 where
  pub session_id : ℕ
  pub context_id : ℕ
  pub payload : List ℕ

-- A buffer after a write, and the number of bytes written. The two tests on the payload are one,
-- since 1200 is below `u16::MAX`; both are kept.
unfoldable pub write : Datagram → List ℕ → Option (ℕ × List ℕ)
write d out =
    let total = header_size + length d.payload in
    if ltb max_payload (length d.payload) || ltb 65535 (length d.payload)
    then none
    else if ltb (length out) total
    then none
    else some (
      total,
      copy_at 14 d.payload (
          copy_at 12 (le16 (length d.payload))
            (copy_at 4 (le64 d.context_id) (copy_at 0 (le32 d.session_id) out))),
    )

unfoldable pub parse : List ℕ → Option Datagram
parse buf =
    let at = λ (i : ℕ). get_or buf i 0 in
    let len = from16 (at 12) (at 13) in
    if ltb (length buf) header_size
    then none
    else if ltb max_payload len || (header_size + len != length buf)
    then none
    else some (record {
      session_id = from32 (at 0) (at 1) (at 2) (at 3);
      context_id = from64 (at 4) (at 5) (at 6) (at 7) (at 8) (at 9) (at 10) (at 11);
      payload = drop 14 buf;
    })

-- The bytes of a datagram, one field after another.
abbrev pub encoding : Datagram → List ℕ
encoding d = ((le32 d.session_id ++ le64 d.context_id) ++ le16 (length d.payload)) ++ d.payload

-- Exactly when the payload and the buffer allow it, `write` puts the encoding at the front of the
-- buffer and keeps what is behind it.
pub write-encoding :
    (d : Datagram) (out : List ℕ)
    → length d.payload ≤ max_payload
    → header_size + length d.payload ≤ length out
    → write d out
      ≡ some
          (header_size + length d.payload, encoding d ++ drop (header_size + length d.payload) out)
unfolding write
write-encoding d out h k = ground (arith, written)
  where
    sid : List ℕ
    sid = le32 d.session_id

    ids : List ℕ
    ids = sid ++ le64 d.context_id

    head : List ℕ
    head = ids ++ le16 (length d.payload)

    written :
        copy_at 14 d.payload
          (copy_at 12 (le16 (length d.payload)) (copy_at 4 (le64 d.context_id) (copy_at 0 sid out)))
        ≡ encoding d ++ drop (header_size + length d.payload) out
    written =
        ap (copy_at 14 d.payload) (
          ap (copy_at 12 (le16 (length d.payload))) (
            ap (copy_at 4 (le64 d.context_id)) (copy_at_next [] sid out 0 refl)
            ∙ copy_at_next sid (le64 d.context_id) out 4 refl)
          ∙ copy_at_next ids (le16 (length d.payload)) out 12 refl)
        ∙ copy_at_next head d.payload out 14 refl

pub parse-encoding :
    (d : Datagram)
    → IsU32 d.session_id
    → IsU64 d.context_id
    → length d.payload ≤ max_payload
    → parse (encoding d) ≡ some d
unfolding parse
parse-encoding d hs hc h = ground (
  arith,
  from16-bytes (length d.payload),
  from32-bytes d.session_id hs,
  from64-bytes d.context_id hc,
)

length-encoding : (d : Datagram) → header_size + length d.payload ≡ length (encoding d)
length-encoding d = omega arith

-- A datagram of a `u32` session and a `u64` context whose payload is within the limit and the
-- buffer is written in full, parses back from exactly the bytes written, and the rest of the buffer
-- and its length are left as they were.
pub parse-write :
    (d : Datagram) (out : List ℕ)
    → IsU32 d.session_id
    → IsU64 d.context_id
    → length d.payload ≤ max_payload
    → header_size + length d.payload ≤ length out
    → (n : ℕ) × (written : List ℕ) × (write d out ≡ some (n, written))
      × (parse (take n written) ≡ some d)
      × (drop n written ≡ drop n out)
      × (length written ≡ length out)
parse-write d out hs hc h k = (
  n,
  encoding d ++ drop n out,
  write-encoding d out h k,
  ap parse (
        ap (λ i. take i (encoding d ++ drop n out)) (length-encoding d)
        ∙ take-append (encoding d) _)
      ∙ parse-encoding d hs hc h,
  ap (λ i. drop i (encoding d ++ drop n out)) (length-encoding d) ∙ drop-append (encoding d) _,
  length-append (encoding d) (drop n out) ∙ omega (arith, length-drop n out),
)
  where
    n : ℕ
    n = header_size + length d.payload

-- What does not fit is refused: a payload over the limit, or a buffer that is too short.
pub write_refuses :
    (d : Datagram) (out : List ℕ)
    → write d out ≡ none
    → (max_payload < length d.payload) ⊎ (length out < header_size + length d.payload)
unfolding write
write_refuses d out h = ground arith

-- Whatever list of bytes `parse` accepts is the encoding of the datagram that it returns, whose
-- session has 32 bits, whose context has 64, and whose payload is within the limit.
pub parse_sound :
    (buf : List ℕ) (d : Datagram)
    → All IsByte buf
    → parse buf ≡ some d
    → (encoding d ≡ buf)
      × IsU32 d.session_id
      × IsU64 d.context_id
      × (length d.payload ≤ max_payload)
unfolding parse
parse_sound (s0 ∷ s1 ∷ s2 ∷ s3 ∷ c0 ∷ c1 ∷ c2 ∷ c3 ∷ c4 ∷ c5 ∷ c6 ∷ c7 ∷ l0 ∷ l1 ∷ rest) d bytes h =
    ground arith
parse_sound _ d bytes h = ground arith
