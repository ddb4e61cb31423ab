-- ===== src/Sframe/Replay/Spec.antt =====
-- The replay policy in terms of the counters accepted so far, and that the window implements it.
use wave.Common.{
  ℕ, ◌+◌, ◌-◌, ◌*◌, ◌%◌, ◌^◌, ◌≤◌, ◌<◌, ◌≡◌, refl, ap, ◌∙◌, arith, Bool, true, false, not, ◌&&◌,
  ◌||◌, max, ◌==◌, List, [], ◌∷◌, if◌then◌else◌, if_split, ltb, leb, Bool-cases, inl, inr, bit_and,
  bit_or,
}
use wave.Common.Bits.{bit, bit_and-pow, bit_or-pow, pow-pos, bit_or-lt}
use wave.Common.BitIndex.{bit-shift, bit-mod, bit-odd, bit-set, bit-one}
use wave.Common.Bytes.{IsU64}
use wave.Sframe.Replay.{Window, slide, accept_old, accept}
use native.Mathlib.Nat.{pow-le-pow_right}
use native.Mathlib.Decide.{dec_lt, dec_le}

abbrev pub maximum : List ℕ → ℕ
maximum [] = 0
maximum (c ∷ h) = max c (maximum h)

abbrev pub elem : ℕ → List ℕ → Bool
elem c [] = false
elem c (x ∷ h) = c == x || elem c h

-- The policy over the history of accepted counters: take a counter above all, and one less than 64
-- below the highest that was not accepted before.
unfoldable pub admits : List ℕ → ℕ → Bool
admits [] c = true
admits (x ∷ h) c =
    if ltb (maximum (x ∷ h)) c
    then true
    else if leb 64 (maximum (x ∷ h) - c)
    then false
    else not (elem c (x ∷ h))

abbrev pub one_if : Bool → ℕ
one_if b = if b then 1 else 0

-- The window stands for the history `h`.
pub record Stands (w : Window) (h : List ℕ) : Type 0 where
  pub known : w.initialized ≡ true
  pub top : w.highest ≡ maximum h
  pub word : IsU64 w.seen
  pub bits : (d : ℕ) → d < 64 → bit w.seen d ≡ one_if (leb d w.highest && elem (w.highest - d) h)

pub elem-le : (c : ℕ) (h : List ℕ) → elem c h ≡ true → c ≤ maximum h
elem-le c [] e = cc
elem-le c (x ∷ h) e = ground (arith, elem-le c h)

-- The first counter.
first_Stands : (w : Window) (c : ℕ) → w.initialized ≡ false → Stands (accept w c).1 (c ∷ [])
unfolding accept
first_Stands w c e =
    if_split (λ (r : Bool × Window). Stands r.1 (c ∷ [])) w.initialized _ _ (λ t. cc)
      (λ _. record {
        known = refl;
        top = omega arith;
        word = omega arith;
        bits = λ d k. bit-one d ∙ ground arith;
      })

slide_far : (seen shift : ℕ) → 64 ≤ shift → slide seen shift ≡ 1
unfolding slide
slide_far seen shift h = ground arith

even_shift : (seen shift : ℕ) → 1 ≤ shift → seen * 2 ^ shift % 2 ≡ 0
even_shift seen shift h =
    let low : bit (seen * 2 ^ shift) 0 ≡ 0 = bit-shift shift 0 seen ∙ ground arith in omega arith

slide_near :
    (seen shift : ℕ) → 1 ≤ shift → shift < 64 → slide seen shift ≡ seen * 2 ^ shift % 2 ^ 64 + 1
unfolding slide
slide_near seen shift h k =
    ground (arith, bit_or-pow 0 (seen * 2 ^ shift % 2 ^ 64), even_shift seen shift h)

slide-lt : (seen shift : ℕ) → 1 ≤ shift → slide seen shift < 2 ^ 64
slide-lt seen shift h = elim (dec_le 64 shift) [
  | yes p ↦ omega (arith, slide_far seen shift p)
  | no p ↦ omega (arith, slide_near seen shift h (omega arith), even_shift seen shift h)
]

-- A bit of the window after it slid by at least one place.
bit-slide :
    (seen shift d : ℕ)
    → 1 ≤ shift
    → d < 64
    → bit (slide seen shift) d
      ≡ (if d == 0 then 1 else if ltb d shift then 0 else bit seen (d - shift))
bit-slide seen shift d h k = elim (dec_le 64 shift) [
  | yes p ↦ rw (slide_far seen shift p) (bit-one d ∙ ground arith)
  | no p ↦
      let even : seen * 2 ^ shift % 2 ^ 64 % 2 ≡ 0 = omega (arith, even_shift seen shift h) in
      rw (slide_near seen shift h (omega arith)) (
        bit-odd d (seen * 2 ^ shift % 2 ^ 64) even
        ∙ rw (bit-mod 64 d (seen * 2 ^ shift) k, bit-shift shift d seen) refl)
]

newer_bit :
    (w : Window) (h : List ℕ) (c d : ℕ)
    → Stands w h
    → w.highest < c
    → d < 64
    → (if d == 0 then 1 else if ltb d (c - w.highest) then 0 else bit w.seen (d - (c - w.highest)))
      ≡ one_if (leb d c && elem (c - d) (c ∷ h))
newer_bit w h c d s up k = elim (dec_lt d (c - w.highest)) [
  | yes p ↦ ground (arith, elem-le (c - d) h, s.top)
  | no p ↦
      let moved : w.highest - (d - (c - w.highest)) ≡ c - d = omega arith in
      ground (
        arith,
        s.bits (d - (c - w.highest)) (omega arith),
        ap (λ (x : ℕ). elem x h) moved,
        elem-le (c - d) h,
        s.top,
      )
]

-- A counter above all slides the window.
newer_Stands :
    (w : Window) (h : List ℕ) (c : ℕ)
    → Stands w h
    → w.highest < c
    → Stands (record w { seen = slide w.seen (c - w.highest); highest = c }) (c ∷ h)
newer_Stands w h c s up = record {
  known = s.known;
  top = omega (arith, s.top, up);
  word = slide-lt w.seen (c - w.highest) (omega (arith, up));
  bits = λ d k. bit-slide w.seen (c - w.highest) d (omega (arith, up)) k ∙ newer_bit w h c d s up k;
}

-- A counter of the window that was not seen is marked.
older_Stands :
    (w : Window) (h : List ℕ) (c : ℕ)
    → Stands w h
    → c ≤ w.highest
    → w.highest - c < 64
    → elem c h ≡ false
    → Stands (record w { seen = bit_or w.seen (2 ^ (w.highest - c)) }) (c ∷ h)
older_Stands w h c s below near unseen = record {
  known = s.known;
  top = omega (arith, s.top);
  word = bit_or-lt 64 w.seen (2 ^ (w.highest - c)) s.word small;
  bits = λ d k.
      rw (bit_or-pow (w.highest - c) w.seen unset)
        (bit-set (w.highest - c) d w.seen unset ∙ ground (arith, s.bits d k));
}
  where
    small : 2 ^ (w.highest - c) < 2 ^ 64
    small =
        let bound : 2 ^ (w.highest - c) ≤ 2 ^ 63 =
          pow-le-pow_right {n = 2} (omega arith) {i = w.highest - c} {j = 63} (omega arith) in
        omega arith

    back : w.highest - (w.highest - c) ≡ c
    back = omega arith

    unset : bit w.seen (w.highest - c) ≡ 0
    unset = s.bits (w.highest - c) near ∙ rw (back, unseen) (ground arith)

mark_of :
    (w : Window) (h : List ℕ) (c : ℕ)
    → Stands w h
    → c ≤ w.highest
    → w.highest - c < 64
    → bit_and w.seen (2 ^ (w.highest - c)) ≡ one_if (elem c h) * 2 ^ (w.highest - c)
mark_of w h c s below near =
    bit_and-pow (w.highest - c) w.seen
    ∙ ap (λ (t : ℕ). t * 2 ^ (w.highest - c)) (s.bits (w.highest - c) near ∙ rw back (ground arith))
  where
    back : w.highest - (w.highest - c) ≡ c
    back = omega arith

old_far : (w : Window) (c : ℕ) → 64 ≤ w.highest - c → accept_old w c ≡ (false, w)
unfolding accept_old
old_far w c h = ground arith

old_seen :
    (w : Window) (h : List ℕ) (c : ℕ)
    → Stands w h
    → c ≤ w.highest
    → w.highest - c < 64
    → elem c h ≡ true
    → accept_old w c ≡ (false, w)
unfolding accept_old
old_seen w h c s below near e =
    ground (arith, mark_of w h c s below near, pow-pos (w.highest - c), ap one_if e)

old_fresh :
    (w : Window) (h : List ℕ) (c : ℕ)
    → Stands w h
    → c ≤ w.highest
    → w.highest - c < 64
    → elem c h ≡ false
    → accept_old w c ≡ (true, record w { seen = bit_or w.seen (2 ^ (w.highest - c)) })
unfolding accept_old
old_fresh w h c s below near e = ground (arith, mark_of w h c s below near, ap one_if e)

accept-newer :
    (w : Window) (c : ℕ)
    → w.initialized ≡ true
    → w.highest < c
    → accept w c ≡ (true, record w { seen = slide w.seen (c - w.highest); highest = c })
unfolding accept
accept-newer w c e h = ground arith

accept-older :
    (w : Window) (c : ℕ) → w.initialized ≡ true → c ≤ w.highest → accept w c ≡ accept_old w c
unfolding accept
accept-older w c e h = ground arith

abbrev pub remember : List ℕ → ℕ → List ℕ
remember h c = if admits h c then c ∷ h else h

-- The window of a stream of counters, from its start; an empty history is the empty window.
abbrev pub Tracks : Window → List ℕ → Type 0
Tracks w [] = w.initialized ≡ false
Tracks w (x ∷ h) = Stands w (x ∷ h)

old_refines :
    (w : Window) (x : ℕ) (h : List ℕ) (c : ℕ)
    → Stands w (x ∷ h)
    → c ≤ w.highest
    → ((accept_old w c).0 ≡ admits (x ∷ h) c) × Tracks (accept_old w c).1 (remember (x ∷ h) c)
unfolding admits
old_refines w x h c s below = elim (dec_le 64 (w.highest - c)) [
  | yes far ↦
      let refused : admits (x ∷ h) c ≡ false = ground (arith, s.top) in
      rw (old_far w c far, refused) (refl, s)
  | no near ↦ elim (Bool-cases (elem c (x ∷ h))) [
    | inl e ↦
        let refused : admits (x ∷ h) c ≡ false = ground (arith, s.top) in
        rw (old_seen w (x ∷ h) c s below (omega arith) e, refused) (refl, s)
    | inr e ↦
        let admitted : admits (x ∷ h) c ≡ true = ground (arith, s.top) in
        rw (old_fresh w (x ∷ h) c s below (omega arith) e, admitted)
          (refl, older_Stands w (x ∷ h) c s below (omega arith) e)
  ]
]

first_answer : (w : Window) (c : ℕ) → w.initialized ≡ false → (accept w c).0 ≡ true
unfolding accept
first_answer w c e = ground arith

-- On a window that stands for a history of accepted counters, `accept` answers as the policy does
-- on the history, and the window then stands for the history with the counter added if it was
-- taken.
pub accept_refines :
    (w : Window) (h : List ℕ) (c : ℕ)
    → Tracks w h
    → ((accept w c).0 ≡ admits h c) × Tracks (accept w c).1 (remember h c)
unfolding admits
accept_refines w [] c t = (first_answer w c t, first_Stands w c t)
accept_refines w (x ∷ h) c t = elim (dec_lt w.highest c) [
  | yes up ↦
      let admitted : admits (x ∷ h) c ≡ true = ground (arith, t.top) in
      rw (accept-newer w c t.known up, admitted) (refl, newer_Stands w (x ∷ h) c t up)
  | no below ↦ rw (accept-older w c t.known (omega arith)) (old_refines w x h c t (omega arith))
]
