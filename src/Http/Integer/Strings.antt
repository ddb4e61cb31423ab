-- ===== src/Http/Integer/Strings.antt =====
-- HPACK strings: what is written is read back.
use wave.Common.{
  ℕ, zero, suc, ◌+◌, ◌%◌, ◌≤◌, ◌<◌, ◌≡◌, inl, inr, ◌∙◌, refl, ap, sym, arith, false, some, List, [],
  ◌∷◌, ◌++◌, length, drop, take, bit_and, bit_or, get_or, slice, copy_at, length-append,
  length-take, append_assoc, slice-append, drop-drop,
}
use mathlib.Core.Path.{subst}
use native.Mathlib.Nat.{mod-eq_of_lt}
use wave.Common.Bits.{bit_and-pow, zero-bit_or}
use wave.Common.Bytes.{IsU32, u8}
use wave.Http.Integer.{decode_integer, encode_integer, decode_string, encode_string}
use wave.Http.Integer.RoundTrip.{decode_integer-encode, encode_integer-cases}
use wave.Http.Integer.Room.{encode_integer-Fits}
use wave.Http.Integer.Local.{decode_integer-IsLocal}

-- The first byte of a length has no Huffman flag.
plain_byte : (v : ℕ) → v < 128 → bit_and (bit_or 0 (u8 v)) 0x80 ≡ 0
plain_byte v h = rw (zero-bit_or (u8 v)) (bit_and-pow 7 (u8 v) ∙ omega arith)

no_flag :
    (x : ℕ) (dst : List ℕ) (v n : ℕ) (written : List ℕ)
    → encode_integer (x ∷ dst) 0 7 v ≡ some (n, written)
    → bit_and (get_or written 0 0) 0x80 ≡ 0
no_flag x dst v n written e = elim (encode_integer-cases x dst 0 7 v n written e) [
  | inl (small, en, ew) ↦ rw ew (plain_byte v (omega arith))
  | inr (large, m, later, em, en, ew) ↦ rw ew (plain_byte 127 (omega arith))
]

decode_string-from :
    (usize_max : ℕ) (buf : List ℕ) (slen hdr : ℕ)
    → length buf ≤ usize_max
    → 1 ≤ length buf
    → decode_integer buf 7 ≡ some (slen, hdr)
    → bit_and (get_or buf 0 0) 0x80 ≡ 0
    → hdr + slen ≤ length buf
    → decode_string usize_max buf ≡ some (hdr, slen, hdr + slen, false)
unfolding decode_string
decode_string-from usize_max buf slen hdr fits pos e plain room =
    let whole : (hdr + slen) % (usize_max + 1) ≡ hdr + slen = mod-eq_of_lt (omega arith) in
    rw (e, plain, whole) (ground arith)

encode_string-from :
    (dst s : List ℕ) (n : ℕ) (out : List ℕ)
    → IsU32 (length s)
    → encode_integer dst 0 7 (length s) ≡ some (n, out)
    → n + length s ≤ length dst
    → encode_string dst s ≡ some (n + length s, copy_at n s out)
unfolding encode_string
encode_string-from dst s n out h e room = rw (mod-eq_of_lt h, e) (ground arith)

-- The bytes of a plain string `s`: whatever follows them within `usize_max` bytes, the decoder finds `s` behind its length.
unfoldable pub IsField : ℕ → List ℕ → List ℕ → Type 0
IsField usize_max bytes s =
    (off : ℕ) × (length bytes ≡ off + length s)
    × ((rest : List ℕ)
        → length (bytes ++ rest) ≤ usize_max
        → (decode_string usize_max (bytes ++ rest) ≡ some (off, length s, length bytes, false))
          × (slice (bytes ++ rest) off (off + length s) ≡ s))

get_or_first :
    (n : ℕ) (out rest : List ℕ)
    → 1 ≤ n
    → 1 ≤ length out
    → get_or (take n out ++ rest) 0 0 ≡ get_or out 0 0
get_or_first zero out rest h k = absurd (omega arith)
get_or_first (suc n) [] rest h k = absurd (omega arith)
get_or_first (suc n) (x ∷ out) rest h k = refl

-- A length and a string behind it are a field.
length-IsField :
    (usize_max : ℕ) (s out : List ℕ) (n : ℕ)
    → 1 ≤ n
    → n ≤ length out
    → bit_and (get_or out 0 0) 0x80 ≡ 0
    → ((rest : List ℕ) → decode_integer (take n out ++ rest) 7 ≡ some (length s, n))
    → IsField usize_max (take n out ++ s) s
unfolding IsField
length-IsField usize_max s out n pos inside plain local =
    let front : length (take n out) ≡ n = omega (arith, length-take n out) in
    let whole : length (take n out ++ s) ≡ n + length s =
      omega (arith, length-append (take n out) s, front) in
    let read_back : (rest : List ℕ)
        → length ((take n out ++ s) ++ rest) ≤ usize_max
        → decode_string usize_max ((take n out ++ s) ++ rest)
          ≡ some (n, length s, length (take n out ++ s), false) =
      λ rest fits.
        rw (append_assoc (take n out) s rest, whole)
          (decode_string-from usize_max (take n out ++ (s ++ rest)) (length s) n
            (subst (λ (l : List ℕ). length l ≤ usize_max) (append_assoc (take n out) s rest) fits)
            (omega (arith, length-append (take n out) (s ++ rest), front)) (local (s ++ rest))
            (ap (λ (t : ℕ). bit_and t 0x80) (get_or_first n out (s ++ rest) pos (omega arith))
              ∙ plain)
            (omega (arith, length-append (take n out) (s ++ rest), length-append s rest, front))) in
    (
      n,
      whole,
      λ rest fits.
          (read_back rest fits, slice-append (take n out) s rest n (n + length s) (sym front) refl),
    )

-- A string of less than 2^32 bytes is written to every buffer with 6 bytes to spare: its bytes come first,
-- the decoder reads them back whatever follows them within `usize_max` bytes, and what is behind them is kept.
pub decode_string-encode :
    (usize_max : ℕ) (dst s : List ℕ)
    → IsU32 (length s)
    → 6 + length s ≤ length dst
    → (bytes : List ℕ) × IsField usize_max bytes s
      × (length bytes ≤ 6 + length s)
      × (encode_string dst s ≡ some (length bytes, bytes ++ drop (length bytes) dst))
decode_string-encode usize_max [] s h room = absurd (omega arith)
decode_string-encode usize_max (x ∷ dst) s h room =
    let (n, out, e, six, kept, len) =
      encode_integer-Fits (x ∷ dst) 0 7 (length s) h (omega arith) in
    let read = decode_integer-encode (x ∷ dst) 0 7 (length s) n out (omega arith) h e in
    let (pos, inside, _, _, local) = decode_integer-IsLocal out 7 (length s) n (omega arith) read in
    let whole : length (take n out ++ s) ≡ n + length s =
      omega (arith, length-append (take n out) s, length-take n out) in
    let more : drop (n + length s) out ≡ drop (n + length s) (x ∷ dst) =
      sym (drop-drop (length s) n out)
      ∙ ap (drop (length s)) kept
      ∙ drop-drop (length s) n (x ∷ dst) in
    (
      take n out ++ s,
      length-IsField usize_max s out n pos inside (no_flag x dst (length s) n out e) local,
      omega arith,
      encode_string-from (x ∷ dst) s n out h e (omega arith)
          ∙ rw (whole, more, append_assoc (take n out) s (drop (n + length s) (x ∷ dst))) refl,
    )
