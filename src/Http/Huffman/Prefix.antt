-- ===== src/Http/Huffman/Prefix.antt =====
-- The table is a prefix code: the scan finds every symbol at its code, and nothing at a shorter prefix.
use wave.Common.{
  ℕ, zero, suc, ◌+◌, ◌-◌, ◌/◌, ◌^◌, ◌≤◌, ◌<◌, ◌≡◌, refl, ap, arith, Bool, true, false, ◌&&◌, Option,
  none, some, List, [], ◌∷◌, ltb, leb, ◌==◌, length, get_or,
}
use wave.Http.Huffman.Table.{huff}
use wave.Http.Huffman.{find_symbol}

abbrev pub is_none {ℓ} : {A : Type ℓ} → Option A → Bool
is_none none = true
is_none (some a) = false

abbrev is_some : Option ℕ → ℕ → Bool
is_some none sym = false
is_some (some s) sym = s == sym

-- No prefix of `code`, itself included, is a code.
unfoldable pub no_symbols : List (ℕ × ℕ) → ℕ → ℕ → Bool
no_symbols table code zero = true
no_symbols table code (suc l) =
    is_none (find_symbol table code (suc l) 0) && no_symbols table (code / 2) l

unfoldable is_code : List (ℕ × ℕ) → ℕ → ℕ → ℕ → Bool
is_code table code zero sym = false
is_code table code (suc l) sym =
    is_some (find_symbol table code (suc l) 0) sym
    && (no_symbols table (code / 2) l && (ltb code (2 ^ suc l) && leb (suc l) 30))

unfoldable are_codes : List (ℕ × ℕ) → List (ℕ × ℕ) → ℕ → Bool
are_codes table [] sym = true
are_codes table ((code, len) ∷ rest) sym =
    is_code table code len sym && are_codes table rest (suc sym)

huff-are_codes : are_codes huff huff 0 ≡ true
unfolding are_codes is_code no_symbols find_symbol huff
huff-are_codes = refl

pub is_none-eq : (o : Option ℕ) → is_none o ≡ true → o ≡ none
is_none-eq none e = refl
is_none-eq (some a) e = cc

-- The code of a symbol of a prefix code.
abbrev pub IsCode : List (ℕ × ℕ) → ℕ → ℕ → ℕ → Type 0
IsCode table code len sym =
    (l : ℕ) × (len ≡ suc l)
    × (find_symbol table code len 0 ≡ some sym)
    × (no_symbols table (code / 2) l ≡ true)
    × (code < 2 ^ len)
    × (len ≤ 30)

pub &&_split : (a b : Bool) → (a && b) ≡ true → (a ≡ true) × (b ≡ true)
&&_split a b e = ground arith

is_some-eq : (o : Option ℕ) (sym : ℕ) → is_some o sym ≡ true → o ≡ some sym
is_some-eq none sym e = cc
is_some-eq (some s) sym e = ap some (ground arith)

is_code-IsCode :
    (table : List (ℕ × ℕ)) (code len sym : ℕ)
    → is_code table code len sym ≡ true
    → IsCode table code len sym
unfolding is_code
is_code-IsCode table code zero sym e = cc
is_code-IsCode table code (suc l) sym e =
    let (found, rest) = &&_split (is_some (find_symbol table code (suc l) 0) sym) _ e in
    let (clear, bounds) = &&_split (no_symbols table (code / 2) l) _ rest in
    (
      l,
      refl,
      is_some-eq (find_symbol table code (suc l) 0) sym found,
      clear,
      ground arith,
      ground arith,
    )

are_codes-nth :
    (table rest : List (ℕ × ℕ)) (base i : ℕ)
    → are_codes table rest base ≡ true
    → i < length rest
    → IsCode table (get_or rest i (0, 0)).0 (get_or rest i (0, 0)).1 (base + i)
unfolding are_codes
are_codes-nth table [] base i e h = absurd (omega arith)
are_codes-nth table ((code, len) ∷ rest) base zero e h =
    let (here, later) = &&_split (is_code table code len base) _ e in
    let stay : base + 0 ≡ base = omega arith in rw stay (is_code-IsCode table code len base here)
are_codes-nth table ((code, len) ∷ rest) base (suc i) e h =
    let (here, later) = &&_split (is_code table code len base) _ e in
    let next : base + suc i ≡ suc base + i = omega arith in
    rw next (are_codes-nth table rest (suc base) i later (omega arith))

pub length-huff : length huff ≡ 257
unfolding huff
length-huff = refl

-- Every entry of the table is the code of its symbol.
pub huff-IsCode :
    (sym : ℕ) → sym < 257 → IsCode huff (get_or huff sym (0, 0)).0 (get_or huff sym (0, 0)).1 sym
huff-IsCode sym h =
    let first : 0 + sym ≡ sym = omega arith in
    rw first at (are_codes-nth huff huff 0 sym huff-are_codes (omega (arith, length-huff)))

-- Seven ones or less hold no code.
pub ones_clear : (j : ℕ) → j < 8 → no_symbols huff (2 ^ j - 1) j ≡ true
unfolding no_symbols find_symbol huff
ones_clear zero h = refl
ones_clear (suc zero) h = refl
ones_clear (suc (suc zero)) h = refl
ones_clear (suc (suc (suc zero))) h = refl
ones_clear (suc (suc (suc (suc zero)))) h = refl
ones_clear (suc (suc (suc (suc (suc zero))))) h = refl
ones_clear (suc (suc (suc (suc (suc (suc zero)))))) h = refl
ones_clear (suc (suc (suc (suc (suc (suc (suc zero))))))) h = refl
ones_clear (suc (suc (suc (suc (suc (suc (suc (suc j)))))))) h = absurd (omega arith)
