-- ===== src/Stun/Message/Types.antt =====
-- The class and the method survive the type field.
use wave.Common.{
  ℕ, zero, suc, ◌<◌, ◌≡◌, inl, inr, refl, arith, Bool, true, ◌&&◌, ◌==◌, ltb, ◌/◌, ◌^◌, bit_and,
  Bool-cases,
}
use wave.Common.Bytes.{u8, IsU16}
use wave.Stun.Message.{class_of, method_of, message_type}

abbrev fits : ℕ → ℕ → Bool
fits class method =
    let typ = message_type class method in
    class_of typ == class
    && (method_of typ == method && (bit_and (u8 (typ / 2 ^ 8)) 0xc0 == 0 && ltb typ (2 ^ 16)))

unfoldable all_below : ℕ → (ℕ → Bool) → Bool
all_below zero p = true
all_below (suc n) p = p n && all_below n p

all_fit : all_below 4 (λ class. all_below 4096 (λ method. fits class method)) ≡ true
unfolding all_below class_of method_of message_type
all_fit = refl

all_below-at : (n : ℕ) (p : ℕ → Bool) (i : ℕ) → all_below n p ≡ true → i < n → p i ≡ true
unfolding all_below
all_below-at zero p i e h = absurd (omega arith)
all_below-at (suc n) p i e h = elim (Bool-cases (n == i)) [
  | inl here ↦ let same : n ≡ i = ground arith in rw (← same) (ground arith)
  | inr other ↦ all_below-at n p i (ground arith) (ground arith)
]

-- Every class of two bits and method of twelve is read back from its type field, which has 16 bits with
-- the two leading ones clear.
pub message_type_lem :
    (class method : ℕ)
    → class < 4
    → method < 4096
    → (class_of (message_type class method) ≡ class)
      × (method_of (message_type class method) ≡ method)
      × (bit_and (u8 (message_type class method / 2 ^ 8)) 0xc0 ≡ 0)
      × IsU16 (message_type class method)
message_type_lem class method hc hm =
    let fit =
      all_below-at 4096 (λ m. fits class m) method
        (all_below-at 4 (λ c. all_below 4096 (λ m. fits c m)) class all_fit hc) hm in
    (ground arith, ground arith, ground arith, ground arith)
