-- ===== src/Smtp/Session/Lines.antt =====
-- Reply lines: their code, their end and their text.
use wave.Common.{
  ℕ, ◌+◌, ◌*◌, ◌≤◌, ◌<◌, ◌≡◌, ◌≢◌, ◌∙◌, refl, ap, arith, false, some, List, [], ◌∷◌, ◌++◌, ◌==◌,
  ◌!=◌, length, length-append, All,
}
use wave.Smtp.Session.{find_crlf, reply_line, reply_text}

find_crlf-text :
    (text rest : List ℕ) (i : ℕ)
    → All (λ c. c ≢ 13) text
    → find_crlf (text ++ 13 ∷ 10 ∷ rest) i ≡ some (i + length text)
unfolding find_crlf
find_crlf-text [] rest i h = ground arith
find_crlf-text (a ∷ []) rest i (ha, h) = ground arith
find_crlf-text (a ∷ b ∷ text) rest i (ha, h) =
    let no : (a == 13) ≡ false = ground arith in
    rw no (find_crlf-text (b ∷ text) rest (i + 1) h ∙ ap some (omega arith))

-- A reply of three digits below 10, any separator that is not CR, and a text without CR that is
-- not empty, is read back in front of whatever follows its CRLF: the code, a line that is the last
-- exactly when the separator is not a dash, the length of the line, and the span of the text.
pub reply_line-written :
    (d0 d1 d2 sep : ℕ) (text rest : List ℕ)
    → d0 < 10
    → d1 < 10
    → d2 < 10
    → sep ≢ 13
    → All (λ c. c ≢ 13) text
    → 1 ≤ length text
    → (line : List ℕ) × (line ≡ ((48 + d0) ∷ (48 + d1) ∷ (48 + d2) ∷ sep ∷ text) ++ 13 ∷ 10 ∷ rest)
      × (reply_line line ≡ some (d0 * 100 + d1 * 10 + d2, sep != 45, 6 + length text))
      × (reply_text line (6 + length text) ≡ some (4, length text))
unfolding reply_line reply_text
reply_line-written d0 d1 d2 sep text rest h0 h1 h2 hs ht pos =
    let line = ((48 + d0) ∷ (48 + d1) ∷ (48 + d2) ∷ sep ∷ text) ++ 13 ∷ 10 ∷ rest in
    let clean : All (λ c. c ≢ 13) ((48 + d0) ∷ (48 + d1) ∷ (48 + d2) ∷ sep ∷ text) =
      (ground arith, (ground arith, (ground arith, (hs, ht)))) in
    let found = find_crlf-text ((48 + d0) ∷ (48 + d1) ∷ (48 + d2) ∷ sep ∷ text) rest 0 clean in
    (line, refl, rw found (ground arith), ground (arith, length-append text (13 ∷ 10 ∷ rest)))
