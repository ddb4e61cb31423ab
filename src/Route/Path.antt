-- ===== src/Route/Path.antt =====
-- `norm_path`: percent-encoding normalisation, then the removal of dot segments in place.
pub mod Segments
pub mod Rounds
pub mod Sweep
pub mod Escapes
pub mod Stable
pub mod Resolved
pub mod Canonical
use wave.Common.{
  same, starts_with, ℕ, zero, suc, ◌+◌, ◌-◌, ◌*◌, ◌^◌, Bool, true, false, ◌&&◌, ◌||◌, if◌then◌else◌,
  ltb, leb, ◌==◌, List, [], ◌∷◌, ◌++◌, Option, none, some, length, get_or, set, take, slice,
  copy_at, bit_or,
}
use wave.Common.Bytes.{u8}
use wave.Route.{Error, Result, ok, err, ◌>>=◌, oversize, non_ascii, bad_path}

abbrev pub max_path : ℕ
max_path = 2048

abbrev pub between : ℕ → ℕ → ℕ → Bool
between low high b = leb low b && leb b high

-- `is_ascii_alphanumeric`
unfoldable pub is_alphanumeric : ℕ → Bool
is_alphanumeric b = between b'0' b'9' b || (between b'A' b'Z' b || between b'a' b'z' b)

unfoldable pub unreserved : ℕ → Bool
unfolding is_alphanumeric
unreserved b = is_alphanumeric b || (b == b'-' || (b == b'.' || (b == b'_' || b == b'~')))

unfoldable pub pchar_ok : ℕ → Bool
unfolding unreserved
pchar_ok b =
    unreserved b
    || (b == b'!'
        || (b == b'$'
            || (b == b'&'
                || (b == 39
                    || (b == b'('
                        || (b == b')'
                            || (b == b'*'
                                || (b == b'+'
                                    || (b == b','
                                        || (b == b';'
                                            || (b == b'='
                                                || (b == b':'
                                                    || (b == b'@' || b == b'/')))))))))))))

unfoldable pub hex_val : ℕ → Option ℕ
hex_val b =
    if between b'0' b'9' b
    then some (b - b'0')
    else if between b'a' b'f' b
    then some (b - b'a' + 10)
    else if between b'A' b'F' b
    then some (b - b'A' + 10)
    else none

-- `to_ascii_uppercase`
unfoldable pub to_upper : ℕ → ℕ
to_upper b = if between b'a' b'z' b then b - 32 else b

-- A byte behind which the rest has this result.
abbrev pub then_ok : List ℕ → Result (List ℕ) → Result (List ℕ)
then_ok bs rest = rest >>= λ out. ok (bs ++ out)

unfoldable pub plain : ℕ → Result (List ℕ) → Result (List ℕ)
plain b rest =
    if leb 128 b then err non_ascii else if pchar_ok b then then_ok (b ∷ []) rest else err bad_path

unfoldable pub escaped : ℕ → ℕ → Result (List ℕ) → Result (List ℕ)
escaped h l rest = elim (hex_val h) [
  | none ↦ err bad_path
  | some hi ↦ elim (hex_val l) [
    | none ↦ err bad_path
    | some lo ↦
        let v = bit_or (u8 (hi * 2 ^ 4)) lo in
        if unreserved v
        then then_ok (v ∷ []) rest
        else then_ok (b'%' ∷ to_upper h ∷ to_upper l ∷ []) rest
  ]
]

-- The loop of `norm_path`, as the bytes that it writes.
unfoldable pub unescape : List ℕ → Result (List ℕ)
unescape [] = ok []
unescape (b ∷ []) = if b == b'%' then err bad_path else plain b (ok [])
unescape (b ∷ h ∷ []) = if b == b'%' then err bad_path else plain b (unescape (h ∷ []))
unescape (b ∷ h ∷ l ∷ src) =
    let behind = unescape src in
    let next = unescape (h ∷ l ∷ src) in if b == b'%' then escaped h l behind else plain b next

unfoldable pub pop_segment : List ℕ → ℕ → ℕ
pop_segment buf zero = 0
pop_segment buf (suc w) =
    let below = pop_segment buf w in if get_or buf w 0 == b'/' then w else below

-- How many bytes stand before the next slash.
unfoldable pub until_slash : List ℕ → ℕ
until_slash [] = 0
until_slash (b ∷ rest) = let more = until_slash rest in if b == b'/' then 0 else suc more

-- The end `e` of the segment at `r`.
unfoldable pub segment_end : List ℕ → ℕ → ℕ → ℕ
segment_end buf n r =
    let e = if get_or buf r 0 == b'/' then r + 1 else r in e + until_slash (slice buf e n)

-- One round of `remove_dot_segments`: the buffer and both cursors.
unfoldable pub step : ℕ → List ℕ → ℕ → ℕ → List ℕ × ℕ × ℕ
step n buf r w =
    let rest = slice buf r n in
    if starts_with rest (b'.' ∷ b'.' ∷ b'/' ∷ [])
    then (buf, r + 3, w)
    else if starts_with rest (b'.' ∷ b'/' ∷ []) || starts_with rest (b'/' ∷ b'.' ∷ b'/' ∷ [])
    then (buf, r + 2, w)
    else if same rest (b'/' ∷ b'.' ∷ [])
    then (set buf (r + 1) b'/', r + 1, w)
    else if starts_with rest (b'/' ∷ b'.' ∷ b'.' ∷ b'/' ∷ [])
    then (buf, r + 3, pop_segment buf w)
    else if same rest (b'/' ∷ b'.' ∷ b'.' ∷ [])
    then (set buf (r + 2) b'/', r + 2, pop_segment buf w)
    else if same rest (b'.' ∷ []) || same rest (b'.' ∷ b'.' ∷ [])
    then (buf, n, w)
    else let e = segment_end buf n r in (copy_at w (slice buf r e) buf, e, w + (e - r))

-- The buffer and the length of what is left of its first `n` bytes.
unfoldable pub remove_from : ℕ → ℕ → List ℕ → ℕ → ℕ → List ℕ × ℕ
remove_from zero n buf r w = (buf, w)
remove_from (suc fuel) n buf r w =
    let (buf', r', w') = step n buf r w in
    let done = remove_from fuel n buf' r' w' in if ltb r n then done else (buf, w)

-- One round for every byte is enough, since each consumes one or more.
unfoldable pub remove_dot_segments : List ℕ → ℕ → List ℕ × ℕ
remove_dot_segments buf n = remove_from (suc n) n buf 0 0

unfoldable pub norm_path : List ℕ → List ℕ → Result (ℕ × List ℕ)
norm_path src dst =
    if ltb max_path (length src)
    then err oversize
    else if length src == 0
    then ok (1, set dst 0 b'/')
    else unescape src >>= λ out.
        let (buf, n) = remove_dot_segments (copy_at 0 out dst) (length out) in
        if n == 0 then ok (1, set buf 0 b'/') else ok (n, buf)
