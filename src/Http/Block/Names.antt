-- ===== src/Http/Block/Names.antt =====
-- The names that `encode_header` writes are the names a literal is decoded with.
use wave.Common.{
  ℕ, zero, suc, ◌+◌, ◌≤◌, ◌<◌, ◌≡◌, inl, inr, ◌∙◌, refl, ap, arith, Bool-cases, true, false, some,
  List, [], ◌∷◌, ◌++◌, ltb, ◌==◌, length, drop, take, bit_or, length-take, take-append-drop,
}
use wave.Common.Bits.{zero-bit_or}
use wave.Common.Bytes.{IsU32, u8}
use wave.Http.Integer.{decode_integer, encode_integer, encode_string}
use wave.Http.Integer.Strings.{IsField, decode_string-encode}
use wave.Http.Integer.RoundTrip.{decode_integer-encode, encode_integer-cases}
use wave.Http.Integer.Room.{encode_integer-Fits}
use wave.Http.Integer.Local.{decode_integer-IsLocal}
use wave.Http.Block.Table.{Name, Value, static_entries}
use wave.Http.Block.{
  nth_entry, static_lookup, literal_name, names_eq, name_index_from, static_name_index, encode_name,
}

names_eq-eq : (a b : List ℕ) → names_eq a b ≡ true → a ≡ b
unfolding names_eq
names_eq-eq [] [] e = refl
names_eq-eq [] (y ∷ b) e = cc
names_eq-eq (x ∷ a) [] e = cc
names_eq-eq (x ∷ a) (y ∷ b) e =
    let same : x ≡ y = ground arith in
    let rest : names_eq a b ≡ true = ground arith in rw (same, names_eq-eq a b rest) refl

-- An index that the search finds leads to the name.
name_index_from-nth :
    (es : List (Name × Value)) (i : ℕ) (name : List ℕ)
    → 0 < name_index_from es i name
    → (k : ℕ) × (v : Value) × (name_index_from es i name ≡ i + k)
      × (k < length es)
      × (nth_entry es k ≡ some (name, v))
unfolding name_index_from
name_index_from-nth [] i name h = absurd (omega arith)
name_index_from-nth ((nm, v) ∷ es) i name h = elim (Bool-cases (names_eq nm name)) [
  | inl here ↦
      (0, v, rw here (omega arith), omega arith, ap (λ n. some (n, v)) (names_eq-eq nm name here))
  | inr later ↦
      let (k, w, e, inside, found) = name_index_from-nth es (i + 1) name (rw later at h) in
      (suc k, w, rw later (omega (arith, e)), omega arith, found)
]

-- The bytes of a name: decoded as a literal of 4 bits of prefix, whatever follows them within
-- `usize_max` bytes.
unfoldable pub IsName : ℕ → List ℕ → List ℕ → Type 0
IsName usize_max bytes name =
    (b : ℕ) × (tail : List ℕ) × (bytes ≡ b ∷ tail)
    × (b < 16)
    × ((rest : List ℕ)
        → length (bytes ++ rest) ≤ usize_max
        → literal_name usize_max (bytes ++ rest) 4 ≡ some (name, false, length bytes))

-- An index of the static table, in the bytes that stand for it.
encode_integer-first :
    (x : ℕ) (dst : List ℕ) (idx n : ℕ) (out : List ℕ)
    → encode_integer (x ∷ dst) 0 4 idx ≡ some (n, out)
    → (b : ℕ) × (tail : List ℕ) × (out ≡ b ∷ tail) × (b < 16)
encode_integer-first x dst idx n out e = elim (encode_integer-cases x dst 0 4 idx n out e) [
  | inl (small, en, ew) ↦ (bit_or 0 (u8 idx), _, ew, rw (zero-bit_or (u8 idx)) (omega arith))
  | inr (large, m, later, em, en, ew) ↦ (15, later, ew, omega arith)
]

literal_name-indexed :
    (usize_max : ℕ) (buf : List ℕ) (name : Name) (v : Value) (idx n : ℕ)
    → 0 < idx
    → decode_integer buf 4 ≡ some (idx, n)
    → static_lookup idx ≡ some (name, v)
    → literal_name usize_max buf 4 ≡ some (name, false, n)
unfolding literal_name
literal_name-indexed usize_max buf name v idx n h e f =
    rw e (let ne : (idx == 0) ≡ false = ground arith in rw (ne, f) refl)

literal_name-plain :
    (usize_max : ℕ) (rest bytes name : List ℕ)
    → IsField usize_max bytes name
    → length (0 ∷ (bytes ++ rest)) ≤ usize_max
    → literal_name usize_max (0 ∷ (bytes ++ rest)) 4 ≡ some (name, false, length (0 ∷ bytes))
unfolding literal_name IsField
literal_name-plain usize_max rest bytes name (off, whole, read) fits =
    let (found, same) = read rest (omega arith) in
    let zero_read : decode_integer (0 ∷ (bytes ++ rest)) 4 ≡ some (0, 1) =
      unfold decode_integer in refl in
    let next : 1 + length bytes ≡ suc (length bytes) = omega arith in
    rw (zero_read) (rw (found, same, next) refl)

entries_count : length static_entries ≡ 61
unfolding static_entries
entries_count = refl

encode_name-known :
    (dst name : List ℕ)
    → ltb 0 (static_name_index name) ≡ true
    → encode_name dst name ≡ encode_integer dst 0 4 (static_name_index name)
unfolding encode_name
encode_name-known dst name e = rw e refl

encode_name-unknown :
    (x : ℕ) (dst name bytes : List ℕ)
    → ltb 0 (static_name_index name) ≡ false
    → encode_string dst name ≡ some (length bytes, bytes ++ drop (length bytes) dst)
    → encode_name (x ∷ dst) name ≡ some (length (0 ∷ bytes), 0 ∷ (bytes ++ drop (length bytes) dst))
unfolding encode_name
encode_name-unknown x dst name bytes e f =
    let next : 1 + length bytes ≡ suc (length bytes) = omega arith in
    let some_room : (ltb (length (x ∷ dst)) 1) ≡ false = ground arith in
    rw (e, some_room, f, next) refl

-- What an encoder of a name leaves in the buffer.
unfoldable pub Named : ℕ → List ℕ → List ℕ → Type 0
Named usize_max dst name =
    (bytes : List ℕ) × IsName usize_max bytes name
    × (length bytes ≤ 7 + length name)
    × (encode_name dst name ≡ some (length bytes, bytes ++ drop (length bytes) dst))

static_name_index-lookup :
    (name : List ℕ)
    → ltb 0 (static_name_index name) ≡ true
    → (v : Value) × IsU32 (static_name_index name)
      × (static_lookup (static_name_index name) ≡ some (name, v))
unfolding static_name_index static_lookup
static_name_index-lookup name h =
    let (k, v, e, inside, found) = name_index_from-nth static_entries 1 name (ground arith) in
    let e' : name_index_from static_entries 1 name ≡ suc k = omega arith in
    (v, omega (arith, entries_count), rw e' found)

first_of :
    (n : ℕ) (out : List ℕ)
    → 1 ≤ n
    → (b : ℕ) × (tail : List ℕ) × (out ≡ b ∷ tail) × (b < 16)
    → (b : ℕ) × (tail : List ℕ) × (take n out ≡ b ∷ tail) × (b < 16)
first_of zero out h p = absurd (omega arith)
first_of (suc n) out h (b, tail, e, small) = (b, take n tail, rw e refl, small)

known_Named :
    (usize_max x : ℕ) (dst name : List ℕ)
    → 7 + length name ≤ length (x ∷ dst)
    → ltb 0 (static_name_index name) ≡ true
    → Named usize_max (x ∷ dst) name
unfolding Named IsName
known_Named usize_max x dst name room known =
    let (v, small, found) = static_name_index-lookup name known in
    let (n, out, written, six, kept, len) =
      encode_integer-Fits (x ∷ dst) 0 4 (static_name_index name) small (omega arith) in
    let read =
      decode_integer-encode (x ∷ dst) 0 4 (static_name_index name) n out (omega arith) small
        written in
    let (pos, within, _, _, local) =
      decode_integer-IsLocal out 4 (static_name_index name) n (omega arith) read in
    let front : length (take n out) ≡ n = omega (arith, length-take n out) in
    let (b, tail, eb, hb) =
      first_of n out pos (encode_integer-first x dst (static_name_index name) n out written) in
    (
      take n out,
      (
        b,
        tail,
        eb,
        hb,
        λ rest fits. rw front (
            literal_name-indexed usize_max (take n out ++ rest) name v (static_name_index name) n
              (ground arith) (local rest) found),
      ),
      omega arith,
      encode_name-known (x ∷ dst) name known
          ∙ written
          ∙ rw (front, ← kept, take-append-drop n out) refl,
    )

unknown_Named :
    (usize_max x : ℕ) (dst name : List ℕ)
    → IsU32 (length name)
    → 7 + length name ≤ length (x ∷ dst)
    → ltb 0 (static_name_index name) ≡ false
    → Named usize_max (x ∷ dst) name
unfolding Named IsName
unknown_Named usize_max x dst name h room unknown =
    let (bytes, field, short, e) = decode_string-encode usize_max dst name h (omega arith) in
    (
      0 ∷ bytes,
      (
        0,
        bytes,
        refl,
        omega arith,
        λ rest fits. literal_name-plain usize_max rest bytes name field fits,
      ),
      omega arith,
      encode_name-unknown x dst name bytes unknown e,
    )

pub encode_name-Named :
    (usize_max : ℕ) (dst name : List ℕ)
    → IsU32 (length name)
    → 7 + length name ≤ length dst
    → Named usize_max dst name
encode_name-Named usize_max [] name h room = absurd (omega arith)
encode_name-Named usize_max (x ∷ dst) name h room =
    elim (Bool-cases (ltb 0 (static_name_index name))) [
      | inl known ↦ known_Named usize_max x dst name room known
      | inr unknown ↦ unknown_Named usize_max x dst name h room unknown
    ]
