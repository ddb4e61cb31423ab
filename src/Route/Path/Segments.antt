-- ===== src/Route/Path/Segments.antt =====
-- A path as its segments, and the dot segments of RFC 3986, section 5.2.4, removed with a stack.
use wave.Common.{
  same, starts_with, ℕ, suc, ◌≡◌, refl, ap, arith, Bool, true, false, if◌then◌else◌, ◌==◌, List, [],
  ◌∷◌, ◌++◌, All, length,
}
use mathlib.Core.List.{tail}
use wave.Route.Path.{until_slash}

-- A segment has no slash.
abbrev pub IsSegment : List ℕ → Type 0
IsSegment s = All (λ b. (b == b'/') ≡ false) s

abbrev pub is_dot : List ℕ → Bool
is_dot s = same s (b'.' ∷ [])

abbrev pub is_dots : List ℕ → Bool
is_dots s = same s (b'.' ∷ b'.' ∷ [])

-- Every segment behind a slash.
abbrev pub render : List (List ℕ) → List ℕ
render [] = []
render (s ∷ segs) = b'/' ∷ (s ++ render segs)

-- The same for a stack, whose last segment comes first.
abbrev pub render_stack : List (List ℕ) → List ℕ
render_stack [] = []
render_stack (s ∷ stack) = render_stack stack ++ b'/' ∷ s

-- What stands on the stack behind a dot segment: an empty segment if it was the last one.
abbrev pub closing : List (List ℕ) → List (List ℕ) → List (List ℕ)
closing [] stack = [] ∷ stack
closing (s ∷ segs) stack = stack

-- "." leaves the stack as it is, ".." takes the last segment off, and any other is put on it.
unfoldable pub resolve : List (List ℕ) → List (List ℕ) → List (List ℕ)
resolve stack [] = stack
resolve stack (s ∷ segs) =
    resolve
      (if is_dot s
        then closing segs stack
        else if is_dots s
        then closing segs (tail stack)
        else s ∷ stack)
      segs

-- What can follow a segment: nothing, or a slash.
abbrev pub IsBoundary : List ℕ → Type 0
IsBoundary [] = Unit
IsBoundary (b ∷ rest) = (b == b'/') ≡ true

pub render-IsBoundary : (segs : List (List ℕ)) → IsBoundary (render segs)
render-IsBoundary [] = tt
render-IsBoundary (s ∷ segs) = refl

pub until_slash-segment :
    (s rest : List ℕ) → IsSegment s → IsBoundary rest → until_slash (s ++ rest) ≡ length s
unfolding until_slash
until_slash-segment [] [] h e = refl
until_slash-segment [] (b ∷ rest) h e = rw e
until_slash-segment (b ∷ s) rest (hb, hs) e = rw hb (ap suc (until_slash-segment s rest hs e))

-- A segment that is neither "." nor ".." begins none of the prefixes of a dot segment.
pub no_prefix :
    (s rest : List ℕ)
    → IsSegment s
    → IsBoundary rest
    → is_dot s ≡ false
    → is_dots s ≡ false
    → (starts_with (s ++ rest) (b'.' ∷ b'/' ∷ []) ≡ false)
      × (same (s ++ rest) (b'.' ∷ []) ≡ false)
      × (starts_with (s ++ rest) (b'.' ∷ b'.' ∷ b'/' ∷ []) ≡ false)
      × (same (s ++ rest) (b'.' ∷ b'.' ∷ []) ≡ false)
no_prefix [] [] h e d dd = (refl, refl, refl, refl)
no_prefix [] (b ∷ rest) h e d dd = ground arith
no_prefix (a ∷ []) [] h e d dd = ground arith
no_prefix (a ∷ []) (b ∷ rest) h e d dd = ground arith
no_prefix (a ∷ b ∷ []) [] h e d dd = ground arith
no_prefix (a ∷ b ∷ []) (c ∷ rest) h e d dd = ground arith
no_prefix (a ∷ b ∷ c ∷ s) rest h e d dd = ground arith
