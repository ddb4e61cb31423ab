-- ===== src/Route/Target.antt =====
-- The forms of a request target, `classify_target`.
use wave.Common.{
  same, starts_with, ℕ, ◌+◌, Bool, not, ◌||◌, Option, none, some, ◌>>=◌, if◌then◌else◌, ◌==◌, List,
  [], ◌∷◌, length, get_or, take, drop,
}
use wave.Route.{Result, ok, err, bad_target}
use wave.Route.Path.{between, is_alphanumeric}
use wave.Route.Host.{any, until}

-- `TargetForm`
pub data Form : Type 0 where
  origin : List ℕ → List ℕ → Form
  absolute : List ℕ → List ℕ → List ℕ → Form
  authority : List ℕ → Form
  asterisk : Form

unfoldable pub is_alphabetic : ℕ → Bool
is_alphabetic b = between b'A' b'Z' b || between b'a' b'z' b

-- The loop of `scheme_end`: how many bytes stand before the colon, if all belong to a scheme.
unfoldable pub scheme_from : List ℕ → Option ℕ
scheme_from [] = some 0
scheme_from (b ∷ s) =
    let more = scheme_from s >>= λ n. some (n + 1) in
    if b == b':'
    then some 0
    else if is_alphanumeric b || (b == b'+' || (b == b'-' || b == b'.'))
    then more
    else none

unfoldable pub scheme_end : List ℕ → Option ℕ
scheme_end [] = none
scheme_end (b ∷ s) = if not (is_alphabetic b) then none else elim (scheme_from s) [
  | none ↦ none
  | some n ↦ if starts_with (drop n s) (b':' ∷ b'/' ∷ b'/' ∷ []) then some (n + 1) else none
]

-- The bytes before the first `?` and those behind it.
unfoldable pub split_query : List ℕ → List ℕ × List ℕ
split_query s = (take (until b'?' s) s, drop (until b'?' s + 1) s)

-- How many bytes stand before the first `/` or `?`.
unfoldable pub authority_end : List ℕ → ℕ
authority_end [] = 0
authority_end (b ∷ s) = let more = authority_end s in if b == b'/' || b == b'?' then 0 else more + 1

unfoldable pub classify_target : List ℕ → Result Form
classify_target target =
    let rest = λ (at : ℕ). drop (at + 3) target in
    let after = λ (at : ℕ). split_query (drop (authority_end (rest at)) (rest at)) in
    if length target == 0
    then err bad_target
    else if any (λ b. b == b'#') target
    then err bad_target
    else if same target (b'*' ∷ [])
    then ok asterisk
    else if get_or target 0 0 == b'/'
    then if get_or target 1 0 == b'/'
      then err bad_target
      else ok (origin (split_query target).0 (split_query target).1)
    else elim (scheme_end target) [
      | none ↦ ok (authority target)
      | some at ↦ ok (absolute (take (authority_end (rest at)) (rest at)) (after at).0 (after at).1)
    ]
