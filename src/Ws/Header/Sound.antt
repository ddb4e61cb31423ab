-- ===== src/Ws/Header/Sound.antt =====
-- What a decoded header promises, on every input.
use wave.Common.{
  ℕ, ◌+◌, ◌^◌, ◌≤◌, ◌<◌, ◌≡◌, refl, arith, Bool, true, false, List, [], ◌∷◌, Bool-cases, inl, inr,
  ◌!=◌, bit_and, length,
}
use wave.Ws.Mask.{Key}
use wave.Ws.Header.{
  Header, Outcome, done, incomplete, invalid, is_control_opcode, is_valid_opcode, lengths,
  mask_part, is_illegal, decode_two, decode_header, ◌>>=◌,
}

-- What RFC 6455 and the code behind the decoder rely on.
pub record IsSound (buf : List ℕ) (h : Header) : Type 0 where
  pub long : 2 ≤ h.header_len
  pub short : h.header_len ≤ 14
  pub present : h.header_len ≤ length buf
  pub no_wrap : h.header_len + h.payload_len < 2 ^ 64
  pub known : is_valid_opcode h.opcode ≡ true
  pub whole_control : is_control_opcode h.opcode ≡ true → h.fin ≡ true
  pub small_control : is_control_opcode h.opcode ≡ true → h.payload_len ≤ 125

lengths_bounds :
    (len7 : ℕ) (buf : List ℕ) {hl pl : ℕ}
    → 2 ≤ length buf
    → lengths len7 buf ≡ done (hl, pl)
    → (2 ≤ hl) × (hl ≤ 10) × (hl ≤ length buf) × (len7 ≤ 125 → pl ≡ len7)
unfolding lengths
lengths_bounds len7 buf two e = ground arith

mask_part_bounds :
    (masked : Bool) (hl : ℕ) (buf : List ℕ) {key : Key} {len : ℕ}
    → hl ≤ length buf
    → mask_part masked hl buf ≡ done (key, len)
    → (hl ≤ len) × (len ≤ hl + 4) × (len ≤ length buf)
unfolding mask_part
mask_part_bounds masked hl buf h e = ground arith

>>=-eq-done {ℓ κ} :
    {A : Type ℓ} {B : Type κ} (m : Outcome A) (f : A → Outcome B) {b : B}
    → (m >>= f) ≡ done b
    → (a : A) × (m ≡ done a) × (f a ≡ done b)
>>=-eq-done (done a) f e = (a, refl, e)
>>=-eq-done incomplete f e = cc
>>=-eq-done invalid f e = cc

legal_bytes :
    (b0 b1 : ℕ)
    → is_illegal b0 b1 ≡ false
    → (is_valid_opcode (bit_and b0 0x0f) ≡ true)
      × (is_control_opcode (bit_and b0 0x0f) ≡ true → (bit_and b0 0x80 != 0) ≡ true)
      × (is_control_opcode (bit_and b0 0x0f) ≡ true → bit_and b1 0x7f ≤ 125)
unfolding is_illegal
legal_bytes b0 b1 e = (ground arith, λ c. ground arith, λ c. ground arith)

-- The last check of the decoder, and what it returns.
header_of : ℕ → ℕ → Key → ℕ → ℕ → Header
header_of b0 b1 key len pl = record {
  fin = bit_and b0 0x80 != 0;
  opcode = bit_and b0 0x0f;
  masked = bit_and b1 0x80 != 0;
  mask_key = key;
  header_len = len;
  payload_len = pl;
}

decode_two_steps :
    (b0 b1 : ℕ) (buf : List ℕ) (h : Header)
    → decode_two b0 b1 buf ≡ done h
    → (is_illegal b0 b1 ≡ false)
      × (hl : ℕ) × (pl : ℕ) × (key : Key) × (len : ℕ) × (lengths (bit_and b1 0x7f) buf
          ≡ done (hl, pl))
      × (mask_part (bit_and b1 0x80 != 0) hl buf ≡ done (key, len))
      × (len + pl < 2 ^ 64)
      × (h ≡ header_of b0 b1 key len pl)
unfolding decode_two header_of
decode_two_steps b0 b1 buf h e = elim (Bool-cases (is_illegal b0 b1)) [
  | inl bad ↦ cc (rw bad at e)
  | inr legal ↦
      let ((hl, pl), el, e2) = >>=-eq-done (lengths (bit_and b1 0x7f) buf) _ (rw legal at e) in
      let ((key, len), em, e3) = >>=-eq-done (mask_part (bit_and b1 0x80 != 0) hl buf) _ e2 in
      (legal, hl, pl, key, len, el, em, ground arith, ground arith)
]

-- Every header that `ws_decode_header` returns lies in the buffer, has at most 14 bytes, gives a frame
-- whose end does not wrap, carries a defined opcode, and is final with at most 125 payload bytes if it
-- is a control frame.
pub decode_header-IsSound : (buf : List ℕ) (h : Header) → decode_header buf ≡ done h → IsSound buf h
unfolding decode_header header_of
decode_header-IsSound [] h e = cc
decode_header-IsSound (b0 ∷ []) h e = cc
decode_header-IsSound (b0 ∷ b1 ∷ rest) h e =
    let buf = b0 ∷ b1 ∷ rest in
    let (legal, hl, pl, key, len, el, em, fits, eh) = decode_two_steps b0 b1 buf h e in
    let (two, ten, inside, plain) = lengths_bounds (bit_and b1 0x7f) buf (omega arith) el in
    let (more, four, present) = mask_part_bounds (bit_and b1 0x80 != 0) hl buf inside em in
    let (known, final, small) = legal_bytes b0 b1 legal in
    rw eh (record {
      long = omega arith;
      short = omega arith;
      present = present;
      no_wrap = fits;
      known = known;
      whole_control = final;
      small_control = λ c. let s = small c in omega (arith, plain s);
    })
