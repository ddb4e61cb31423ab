-- ===== src/Sframe/Header/Width.antt =====
-- `sframe_width` is the least number of bytes, at least one, that hold the value.
use wave.Common.{ℕ, zero, suc, ◌+◌, ◌-◌, ◌/◌, ◌^◌, ◌≤◌, ◌<◌, ◌≡◌, ◌≢◌, ◌⊎◌, inl, inr, refl, arith}
use native.Mathlib.Nat.{pow-suc, add_comm}
use native.Mathlib.Decide.{ℕ_discrete}
use wave.Sframe.Header.{width_loop, width}

pub pow256-pos : (n : ℕ) → 0 < 256 ^ n
pow256-pos zero = omega arith
pow256-pos (suc n) = omega (arith, pow-suc 256 n, pow256-pos n)

one_more : (n r : ℕ) → r / 256 < 256 ^ n → r < 256 ^ (n + 1)
one_more n r h = let step : n + 1 ≡ suc n = omega arith in rw step (omega (arith, pow-suc 256 n))

least_more :
    (n r : ℕ) → r ≢ 0 → (n ≡ 0) ⊎ (256 ^ (n - 1) ≤ r / 256) → (n + 1 ≡ 1) ⊎ (256 ^ (n + 1 - 1) ≤ r)
least_more zero r nz h = inl refl
least_more (suc m) r nz h =
    let step : suc m + 1 - 1 ≡ suc m = omega arith in
    let back : suc m - 1 ≡ m = omega arith in
    elim h [
      | inl e ↦ absurd (omega arith)
      | inr e ↦
          inr (rw step (let e' : 256 ^ m ≤ r / 256 = rw back at e in omega (arith, pow-suc 256 m)))
    ]

least_step :
    (n r : ℕ) → r ≢ 0 → (n ≡ 0) ⊎ (256 ^ (n - 1) ≤ r / 256) → (n + 1 ≡ 0) ⊎ (256 ^ (n + 1 - 1) ≤ r)
least_step zero r nz h = inr (omega arith)
least_step (suc m) r nz h = elim (least_more (suc m) r nz h) [
  | inl e ↦ absurd (omega arith)
  | inr e ↦ inr e
]

-- What the loop returns from `width` bytes with `remaining` above them.
width_loop_lem :
    (rounds remaining start : ℕ)
    → remaining < 256 ^ rounds
    → (n : ℕ) × (width_loop rounds remaining start ≡ start + n)
      × (n ≤ rounds)
      × (remaining < 256 ^ n)
      × ((n ≡ 0) ⊎ (256 ^ (n - 1) ≤ remaining))
unfolding width_loop
width_loop_lem zero remaining start h = (0, omega arith, omega arith, h, inl refl)
width_loop_lem (suc rounds) remaining start h = elim (ℕ_discrete remaining 0) [
  | yes z ↦ (0, ground arith, omega arith, omega arith, inl refl)
  | no nz ↦
      let (n, e, few, below, least) =
        width_loop_lem rounds (remaining / 256) (start + 1) (omega (arith, pow-suc 256 rounds)) in
      (
        n + 1,
        ground arith,
        omega arith,
        one_more n remaining below,
        least_step n remaining nz least,
      )
]

least_width :
    (n value : ℕ)
    → (n ≡ 0) ⊎ (256 ^ (n - 1) ≤ value / 256)
    → (n + 1 ≡ 1) ⊎ (256 ^ (n + 1 - 1) ≤ value)
least_width n value least = elim (ℕ_discrete value 0) [
  | yes z ↦ elim least [
    | inl e ↦ inl (omega arith)
    | inr e ↦ absurd (omega (arith, pow256-pos (n - 1)))
  ]
  | no nz ↦ least_more n value nz least
]

-- `sframe_width` of a `u64` value is the least width of 1 to 8 bytes: the value fits it, and does
-- not fit one byte less unless the width is 1.
pub width_lem :
    (value : ℕ)
    → value < 2 ^ 64
    → (1 ≤ width value)
      × (width value ≤ 8)
      × (value < 256 ^ width value)
      × ((width value ≡ 1) ⊎ (256 ^ (width value - 1) ≤ value))
unfolding width
width_lem value h =
    let (n, e, few, below, least) = width_loop_lem 7 (value / 256) 1 (omega arith) in
    rw (e, add_comm 1 n)
      (omega arith, omega arith, one_more n value below, least_width n value least)
