-- ===== src/Http/Huffman/Sound.antt =====
-- What the Huffman decoder accepts is a Huffman string of what it returns.
use wave.Common.{
  ℕ, zero, suc, ◌+◌, ◌-◌, ◌*◌, ◌/◌, ◌%◌, ◌^◌, ◌≤◌, ◌<◌, ◌≡◌, ◌↔◌, ◌⊎◌, ◌≢◌, inl, inr, Bool-cases,
  ◌∙◌, refl, ap, sym, arith, Option, none, some, >>=-eq-some, List, [], ◌∷◌, ◌++◌, ltb, ◌==◌,
  length, get_or, All, ◌&&◌, append_assoc, append-nil, length-append,
}
use native.Mathlib.Nat.{pow-suc, pow-le-pow_right}
use wave.Common.Bytes.{IsByte}
use wave.Http.Huffman.Table.{huff}
use wave.Http.Huffman.{find_symbol, take_bit, Walk, on_symbol, finish, huffman_decode, take_bytes}
use wave.Http.Huffman.Spec.{code_bits, symbol_bits, string_bits, bits_of, walk, take_bytes-walk}
use wave.Http.Huffman.Prefix.{length-huff}
use wave.Http.Huffman.Complete.{append_bit, walk_at, huffman_decode-string}

-- The scan returns a symbol with the code it looked for.
find_symbol-IsSound :
    (table : List (ℕ × ℕ)) (cur nbits base s : ℕ)
    → find_symbol table cur nbits base ≡ some s
    → (i : ℕ) × (s ≡ base + i) × (i < length table) × (get_or table i (0, 0) ≡ (cur, nbits))
unfolding find_symbol
find_symbol-IsSound [] cur nbits base s e = cc
find_symbol-IsSound ((code, len) ∷ table) cur nbits base s e =
    elim (Bool-cases (len == nbits && code == cur)) [
      | inl here ↦ (0, ground arith, omega arith, ground arith)
      | inr later ↦
          let (i, es, inside, entry) =
            find_symbol-IsSound table cur nbits (suc base) s (rw later at e) in
          (suc i, omega arith, omega arith, entry)
    ]

string_bits-append :
    (table : List (ℕ × ℕ)) (s t : List ℕ)
    → string_bits table (s ++ t) ≡ string_bits table s ++ string_bits table t
unfolding string_bits
string_bits-append table [] t = refl
string_bits-append table (x ∷ s) t =
    rw (string_bits-append table s t)
      (sym (append_assoc (symbol_bits table x) (string_bits table s) (string_bits table t)))

All-append {ℓ κ} :
    {A : Type ℓ} (P : A → Type κ) (xs ys : List A) → All P xs → All P ys → All P (xs ++ ys)
All-append P [] ys h k = k
All-append P (x ∷ xs) ys (p, h) k = (p, All-append P xs ys h k)

-- The state of the loop after the bits `seen`.
record IsWalk (room : ℕ) (seen : List ℕ) (w : Walk) : Type 0 where
  bits : seen ≡ string_bits huff w.out ++ code_bits w.cur w.nbits
  small : w.cur < 2 ^ w.nbits
  short : w.nbits ≤ 30
  bytes : All IsByte w.out
  fits : length w.out ≤ room

code_bits-snoc :
    (cur nbits bit : ℕ)
    → bit < 2
    → code_bits (cur * 2 + bit) (nbits + 1) ≡ code_bits cur nbits ++ (bit ∷ [])
unfolding code_bits
code_bits-snoc cur nbits bit h =
    let next : nbits + 1 ≡ suc nbits = omega arith in
    let half : (cur * 2 + bit) / 2 ≡ cur = omega arith in
    let low : (cur * 2 + bit) % 2 ≡ bit = omega arith in rw (next, half, low) refl

on_symbol-cases :
    (room cur nbits : ℕ) (out : List ℕ) (found : Option ℕ) (next : Walk)
    → on_symbol room cur nbits out found ≡ some next
    → (next ≡ walk_at cur nbits out)
      ⊎ ((s : ℕ) × (found ≡ some s)
          × (s ≢ 256)
          × (length out < room)
          × (next ≡ walk_at 0 0 (out ++ (s % 256 ∷ []))))
unfolding on_symbol
on_symbol-cases room cur nbits out none next e = inl (ground arith)
on_symbol-cases room cur nbits out (some s) next e =
    inr (s, refl, ground arith, ground arith, ground arith)

take_bit-cases :
    (room cur nbits bit : ℕ) (out : List ℕ) (next : Walk)
    → bit < 2
    → cur < 2 ^ nbits
    → take_bit huff room (walk_at cur nbits out) bit ≡ some next
    → (nbits < 30)
      × ((next ≡ walk_at (cur * 2 + bit) (nbits + 1) out)
          ⊎ ((s : ℕ) × (find_symbol huff (cur * 2 + bit) (nbits + 1) 0 ≡ some s)
              × (s ≢ 256)
              × (length out < room)
              × (next ≡ walk_at 0 0 (out ++ (s % 256 ∷ [])))))
unfolding take_bit
take_bit-cases room cur nbits bit out next hb hc e = elim (Bool-cases (ltb 30 (nbits + 1))) [
  | inl long ↦ cc (rw long at e)
  | inr short ↦
      let top : 2 ^ nbits ≤ 2 ^ 30 =
        pow-le-pow_right (omega arith) {i = nbits} {j = 30} (ground arith) in
      (
        ground arith,
        on_symbol-cases room (cur * 2 + bit) (nbits + 1) out _ next
            (rw (short, append_bit cur bit (omega arith) hb) at e),
      )
]

symbol_end :
    (symbol cur nbits : ℕ) (out : List ℕ)
    → get_or huff symbol (0, 0) ≡ (cur, nbits)
    → string_bits huff out ++ code_bits cur nbits
      ≡ string_bits huff (out ++ (symbol ∷ [])) ++ code_bits 0 0
unfolding code_bits
symbol_end symbol cur nbits out e =
    let last : string_bits huff (symbol ∷ []) ≡ code_bits cur nbits =
      unfold string_bits symbol_bits in rw (e, append-nil (code_bits cur nbits)) refl in
    rw
      (
        append-nil (string_bits huff (out ++ (symbol ∷ []))),
        string_bits-append huff out (symbol ∷ []),
        last,
      )
      refl

take_bit-IsWalk :
    (room : ℕ) (seen : List ℕ) (w next : Walk) (bit : ℕ)
    → bit < 2
    → IsWalk room seen w
    → take_bit huff room w bit ≡ some next
    → IsWalk room (seen ++ (bit ∷ [])) next
take_bit-IsWalk room seen w next bit hb v e =
    let (short, cases) = take_bit-cases room w.cur w.nbits bit w.out next hb v.small e in
    let grown : seen ++ (bit ∷ [])
        ≡ string_bits huff w.out ++ code_bits (w.cur * 2 + bit) (w.nbits + 1) =
      ap (λ l. l ++ (bit ∷ [])) v.bits
      ∙ append_assoc (string_bits huff w.out) (code_bits w.cur w.nbits) (bit ∷ [])
      ∙ ap (λ l. string_bits huff w.out ++ l) (sym (code_bits-snoc w.cur w.nbits bit hb)) in
    let one_more : w.nbits + 1 ≡ suc w.nbits = omega arith in
    elim cases [
      | inl e' ↦ rw e' (record {
        bits = grown;
        small = omega (arith, pow-suc 2 w.nbits, ap (λ (t : ℕ). 2 ^ t) one_more);
        short = omega arith;
        bytes = v.bytes;
        fits = v.fits;
      })
      | inr (s, found, ne, room', e') ↦
          let (i, es, inside, entry) =
            find_symbol-IsSound huff (w.cur * 2 + bit) (w.nbits + 1) 0 s found in
          let byte : s % 256 ≡ s = omega (arith, length-huff) in
          let entry' : get_or huff s (0, 0) ≡ (w.cur * 2 + bit, w.nbits + 1) =
            let same : s ≡ i = omega arith in rw same entry in
          rw (e', byte)
            (record {
              bits = grown ∙ symbol_end s (w.cur * 2 + bit) (w.nbits + 1) w.out entry';
              small = omega arith;
              short = omega arith;
              bytes = All-append IsByte w.out (s ∷ []) v.bytes (omega (arith, length-huff), tt);
              fits = omega (arith, length-append w.out (s ∷ []));
            })
    ]

walk-IsWalk :
    (room : ℕ) (bits seen : List ℕ) (w last : Walk)
    → All (λ bit. bit < 2) bits
    → IsWalk room seen w
    → walk huff room bits w ≡ some last
    → IsWalk room (seen ++ bits) last
unfolding walk
walk-IsWalk room [] seen w last h v e =
    let same : w ≡ last = ground arith in rw (append-nil seen, ← same) v
walk-IsWalk room (bit ∷ bits) seen w last (hb, h) v e =
    let (next, e1, e2) = >>=-eq-some (take_bit huff room w bit) _ e in
    rw (append_assoc seen (bit ∷ []) bits) at (
      walk-IsWalk room bits (seen ++ (bit ∷ [])) next last h
        (take_bit-IsWalk room seen w next bit hb v e1) e2)

code_bits-All : (code len : ℕ) → All (λ bit. bit < 2) (code_bits code len)
unfolding code_bits
code_bits-All code zero = tt
code_bits-All code (suc len) =
    All-append (λ bit. bit < 2) (code_bits (code / 2) len) (code % 2 ∷ [])
      (code_bits-All (code / 2) len) (omega arith, tt)

bits_of-All : (src : List ℕ) → All (λ bit. bit < 2) (bits_of src)
unfolding bits_of
bits_of-All [] = tt
bits_of-All (byte ∷ src) =
    All-append (λ bit. bit < 2) (code_bits byte 8) (bits_of src) (code_bits-All byte 8)
      (bits_of-All src)

finish-some :
    (cur j : ℕ) (out s : List ℕ)
    → cur < 2 ^ j
    → finish (walk_at cur j out) ≡ some s
    → (j < 8) × (cur ≡ 2 ^ j - 1) × (out ≡ s)
unfolding finish
finish-some cur zero out s h e = ground arith
finish-some cur (suc j) out s h e = ground arith

-- The bits of `src` are the codes of `s`, and then less than eight ones.
pub Encodes : List ℕ → List ℕ → Type 0
Encodes src s = (j : ℕ) × (j < 8) × (bits_of src ≡ string_bits huff s ++ code_bits (2 ^ j - 1) j)

huffman_decode-IsSound :
    (room : ℕ) (src s : List ℕ)
    → huffman_decode room src ≡ some s
    → All IsByte s × (length s ≤ room) × Encodes src s
unfolding huffman_decode Encodes
huffman_decode-IsSound room src s e =
    let (w, e1, e2) = >>=-eq-some (take_bytes huff room src (walk_at 0 0 [])) _ e in
    let v =
      walk-IsWalk room (bits_of src) [] (walk_at 0 0 []) w (bits_of-All src)
        (record {
          bits = unfold string_bits code_bits in refl;
          small = omega arith;
          short = omega arith;
          bytes = tt;
          fits = omega arith;
        })
        (sym (take_bytes-walk huff room src (walk_at 0 0 [])) ∙ e1) in
    let (short, ones, same) = finish-some w.cur w.nbits w.out s v.small e2 in
    rw (← same) (v.bytes, v.fits, (w.nbits, short, rw (← ones) v.bits))

-- Bytes decode to `s` exactly when `s` is a byte string that fits the output, and the bits are the codes
-- of `s` one behind the other, followed by less than eight ones.
pub huffman_decode_iff :
    (room : ℕ) (src s : List ℕ)
    → (huffman_decode room src ≡ some s) ↔ (All IsByte s × (length s ≤ room) × Encodes src s)
unfolding Encodes
huffman_decode_iff room src s = (
  λ e. huffman_decode-IsSound room src s e,
  λ (hs, hr, (j, hj, e)). huffman_decode-string room src s j hs hr hj e,
)
