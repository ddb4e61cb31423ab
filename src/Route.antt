-- ===== src/Route.antt =====
-- The route key of an HTTP request, modules/common/http_route_key.rs.
pub mod Path
pub mod Host
pub mod Target
pub mod Key
mod Runs
use wave.Common.{◌≡◌, ◌⊎◌, inl, inr, refl}

-- `RouteKeyError`
pub data Error : Type 0 where
  ambiguous oversize non_ascii empty_host bad_host bad_port bad_path bad_target : Error

-- `Result<T, RouteKeyError>`
pub data Result {κ} (T : Type κ) : Type κ where
  err : (refusal : Error) → Result T
  ok : (value : T) → Result T

-- The `?` operator.
infixl 5 ◌>>=◌
abbrev pub ◌>>=◌ {κ μ} : {T : Type κ} {U : Type μ} → Result T → (T → Result U) → Result U
err refusal >>= next = err refusal
ok value >>= next = next value

-- What has an answer behind `?` had one before it.
pub >>=-eq-ok {κ μ} :
    {T : Type κ} {U : Type μ} (before : Result T) (next : T → Result U) {answer : U}
    → (before >>= next) ≡ ok answer
    → (value : T) × (before ≡ ok value) × (next value ≡ ok answer)
>>=-eq-ok (err refusal) next e = cc
>>=-eq-ok (ok value) next e = (value, refl, e)

pub Result-cases {ℓ} :
    {A : Type ℓ} (r : Result A) → ((a : A) × (r ≡ ok a)) ⊎ ((e : Error) × (r ≡ err e))
Result-cases (ok a) = inl (a, refl)
Result-cases (err e) = inr (e, refl)
