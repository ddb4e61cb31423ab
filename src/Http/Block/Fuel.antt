-- ===== src/Http/Block/Fuel.antt =====
-- The decoder of a header block ends: every turn of its loop consumes a byte.
use wave.Common.{
  ℕ, zero, suc, ◌≤◌, ◌≡◌, ◌≢◌, ◌∙◌, refl, sym, arith, Bool-cases, inl, inr, Bool, Option, none,
  some, Option-cases, if_split, >>=-eq-some, List, [], ◌∷◌, ◌==◌, ◌!=◌, length, drop, bit_and,
  length-drop,
}
use wave.Http.Integer.{decode_integer, decode_string}
use wave.Http.Integer.Local.{decode_integer-IsLocal}
use wave.Http.Block.RoundTrip.{decode_block-step}
use wave.Http.Block.Table.{Name, Value}
use wave.Http.Block.{
  Outcome, finished, malformed, unfinished, static_lookup, literal_name, decode_literal,
  decode_indexed, decode_resize, decode_one, decode_block,
}

-- What a turn consumes.
abbrev Advances : Option (ℕ × List (Name × Value)) → Type 0
Advances r = (n : ℕ) (headers : List (Name × Value)) → r ≡ some (n, headers) → 1 ≤ n

decode_indexed-Advances : (buf : List ℕ) → Advances (decode_indexed buf)
unfolding decode_indexed
decode_indexed-Advances buf n headers e =
    let ((idx, m), e1, e2) = >>=-eq-some (decode_integer buf 7) _ e in
    let (header, e3, e4) = >>=-eq-some (static_lookup idx) _ e2 in
    let pos = (decode_integer-IsLocal buf 7 idx m (omega arith) e1).0 in ground arith

decode_resize-Advances : (buf : List ℕ) → Advances (decode_resize buf)
unfolding decode_resize
decode_resize-Advances buf n headers e =
    let ((size, m), e1, e2) = >>=-eq-some (decode_integer buf 5) _ e in
    let pos = (decode_integer-IsLocal buf 5 size m (omega arith) e1).0 in ground arith

literal_name-advances :
    (usize_max : ℕ) (buf : List ℕ) (k n : ℕ) (name : Name) (h : Bool)
    → k ≤ 8
    → literal_name usize_max buf k ≡ some (name, h, n)
    → 1 ≤ n
unfolding literal_name
literal_name-advances usize_max buf k n name h le e =
    let ((idx, m), e1, e2) = >>=-eq-some (decode_integer buf k) _ e in
    let pos = (decode_integer-IsLocal buf k idx m le e1).0 in
    elim (Bool-cases (idx == 0)) [
      | inl zero_idx ↦
          let ((off, sl, total, g), e3, e4) =
            >>=-eq-some (decode_string usize_max (drop m buf)) _ (rw zero_idx at e2) in
          ground arith
      | inr named ↦
          let (entry, e3, e4) = >>=-eq-some (static_lookup idx) _ (rw named at e2) in ground arith
    ]

decode_literal-Advances :
    (usize_max : ℕ) (buf : List ℕ) (k : ℕ) → k ≤ 8 → Advances (decode_literal usize_max buf k)
unfolding decode_literal
decode_literal-Advances usize_max buf k le n headers e =
    let ((name, h, m), e1, e2) = >>=-eq-some (literal_name usize_max buf k) _ e in
    let ((off, vl, total, g), e3, e4) = >>=-eq-some (decode_string usize_max (drop m buf)) _ e2 in
    let pos = literal_name-advances usize_max buf k m name h le e1 in ground arith

decode_one-Advances : (usize_max b : ℕ) (buf : List ℕ) → Advances (decode_one usize_max b buf)
unfolding decode_one
decode_one-Advances usize_max b buf =
    if_split Advances (bit_and b 0x80 != 0) _ _ (λ _. decode_indexed-Advances buf)
      (λ _.
        if_split Advances (bit_and b 0xc0 == 0x40) _ _
          (λ _. decode_literal-Advances usize_max buf 6 (omega arith))
          (λ _.
            if_split Advances (bit_and b 0xe0 == 0x20) _ _ (λ _. decode_resize-Advances buf)
              (λ _. decode_literal-Advances usize_max buf 4 (omega arith))))

decode_block-malformed :
    (usize_max b fuel : ℕ) (buf : List ℕ)
    → decode_one usize_max b (b ∷ buf) ≡ none
    → decode_block usize_max (suc fuel) (b ∷ buf) ≡ ([], malformed)
unfolding decode_block
decode_block-malformed usize_max b fuel buf e = rw (e, decode_block) refl

abbrev HasEnded : Outcome → Type 0
HasEnded outcome = outcome ≢ unfinished

finished-HasEnded : HasEnded finished
finished-HasEnded e = cc

malformed-HasEnded : HasEnded malformed
malformed-HasEnded e = cc

-- With as many turns as the block has bytes, the loop ends: at the end of the block or with an error, and
-- never for want of turns; and every number of turns that is as large gives the same headers and the same
-- outcome.
pub decode_block_fuel :
    (usize_max f g : ℕ) (buf : List ℕ)
    → length buf ≤ f
    → length buf ≤ g
    → ((decode_block usize_max f buf).1 ≢ unfinished)
      × (decode_block usize_max f buf ≡ decode_block usize_max g buf)
decode_block_fuel usize_max zero zero [] hf hg = unfold decode_block in (finished-HasEnded, refl)
decode_block_fuel usize_max zero (suc g) [] hf hg = unfold decode_block in (finished-HasEnded, refl)
decode_block_fuel usize_max (suc f) zero [] hf hg = unfold decode_block in (finished-HasEnded, refl)
decode_block_fuel usize_max (suc f) (suc g) [] hf hg =
    unfold decode_block in (finished-HasEnded, refl)
decode_block_fuel usize_max zero g (b ∷ buf) hf hg = absurd (omega arith)
decode_block_fuel usize_max (suc f) zero (b ∷ buf) hf hg = absurd (omega arith)
decode_block_fuel usize_max (suc f) (suc g) (b ∷ buf) hf hg =
    elim (Option-cases (decode_one usize_max b (b ∷ buf))) [
      | inl e ↦ (
        rw (decode_block-malformed usize_max b f buf e) malformed-HasEnded,
        decode_block-malformed usize_max b f buf e
            ∙ sym (decode_block-malformed usize_max b g buf e),
      )
      | inr ((n, headers), e) ↦
          let pos = decode_one-Advances usize_max b (b ∷ buf) n headers e in
          let (ended, rest) =
            decode_block_fuel usize_max f g (drop n (b ∷ buf))
              (omega (arith, length-drop n (b ∷ buf))) (omega (arith, length-drop n (b ∷ buf))) in
          (
            rw (decode_block-step usize_max b f n buf headers e) ended,
            decode_block-step usize_max b f n buf headers e
                ∙ rw rest (sym (decode_block-step usize_max b g n buf headers e)),
          )
    ]
