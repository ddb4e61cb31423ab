-- ===== src/Route/Host.antt =====
-- `norm_host`: one authority in canonical form. A host is its bytes, those of `dst` up to its length.
use wave.Common.{
  starts_with, ℕ, zero, suc, ◌+◌, ◌-◌, ◌*◌, Bool, true, false, not, ◌&&◌, ◌||◌, if◌then◌else◌, ltb,
  leb, ◌==◌, List, [], ◌∷◌, map, length, get_or, take, drop,
}
use wave.Route.{Result, ok, err, oversize, non_ascii, empty_host, bad_host, bad_port, ◌>>=◌}
use wave.Route.Path.{between, is_alphanumeric}

abbrev pub max_host : ℕ
max_host = 255

abbrev pub port_suffix_max : ℕ
port_suffix_max = 6

unfoldable pub any : (ℕ → Bool) → List ℕ → Bool
any test [] = false
any test (b ∷ s) = test b || any test s

-- How many bytes stand before the first `stop`.
unfoldable pub until : ℕ → List ℕ → ℕ
until stop [] = 0
until stop (b ∷ s) = let more = until stop s in if b == stop then 0 else suc more

unfoldable pub is_digit : ℕ → Bool
is_digit b = between b'0' b'9' b

-- `is_ascii_hexdigit`
unfoldable pub is_hex_digit : ℕ → Bool
is_hex_digit b = is_digit b || (between b'a' b'f' b || between b'A' b'F' b)

-- `to_ascii_lowercase`
unfoldable pub to_lower : ℕ → ℕ
to_lower b = if between b'A' b'Z' b then b + 32 else b

unfoldable pub name_byte : ℕ → Bool
name_byte b = is_alphanumeric b || (b == b'-' || (b == b'_' || (b == b'~' || b == b'.')))

-- The loop of `reg_name_ok`.
unfoldable pub name_from : List ℕ → Bool
name_from [] = true
name_from (b ∷ h) =
    let rest = name_from h in
    if not (name_byte b) then false else if b == b'.' && (get_or h 0 0 == b'.') then false else rest

unfoldable pub reg_name_ok : List ℕ → Bool
reg_name_ok [] = true
reg_name_ok (b ∷ h) = if b == b'.' then false else name_from (b ∷ h)

-- `ipv4_ok` behind `n` digits of value `v`, in the part behind `parts` others.
unfoldable pub ipv4_from : List ℕ → ℕ → ℕ → ℕ → Bool
ipv4_from [] n v parts = if n == 0 || ltb 255 v then false else parts + 1 == 4
ipv4_from (b ∷ s) n v parts =
    let next = ipv4_from s 0 0 (parts + 1) in
    let more = ipv4_from s (n + 1) (v * 10 + (b - b'0')) parts in
    if b == b'.'
    then if n == 0 || ltb 255 v then false else next
    else if not (is_digit b) || leb 3 n
    then false
    else more

unfoldable pub ipv4_ok : List ℕ → Bool
ipv4_ok s = ipv4_from s 0 0 0

unfoldable pub group_ok : List ℕ → Bool → Bool
group_ok g last =
    if any (λ b. b == b'.') g
    then ipv4_ok g && last
    else leb (length g) 4 && not (any (λ b. not (is_hex_digit b)) g)

unfoldable pub groups_ok : ℕ → Bool → Bool
groups_ok groups compressed = if compressed then ltb groups 8 else groups == 8

-- The loop of `ipv6_ok` over what is left, one round for each group.
unfoldable pub ipv6_from : ℕ → List ℕ → ℕ → Bool → Bool
ipv6_from zero s groups compressed = false
ipv6_from (suc fuel) s groups compressed =
    let g = take (until b':' s) s in
    let after = drop (until b':' s) s in
    let groups' = if any (λ b. b == b'.') g then groups + 2 else groups + 1 in
    let double = starts_with after (b':' ∷ b':' ∷ []) in
    let rest =
      ipv6_from fuel (if double then drop 2 after else drop 1 after) groups'
        (compressed || double) in
    if length g == 0
    then false
    else if not (group_ok g (length after == 0))
    then false
    else if ltb 8 groups'
    then false
    else if length after == 0
    then groups_ok groups' compressed
    else if length after == 1 || double && compressed
    then false
    else if double && (length after == 2)
    then groups_ok groups' true
    else rest

unfoldable pub ipv6_ok : List ℕ → Bool
ipv6_ok s =
    if ltb (length s) 2 || ltb 45 (length s)
    then false
    else if get_or s 0 0 == b':'
    then if not (get_or s 1 0 == b':')
      then false
      else if length s == 2
      then true
      else ipv6_from (length s) (drop 2 s) 0 true
    else ipv6_from (length s) s 0 false

unfoldable pub decimal : List ℕ → ℕ → ℕ
decimal [] v = v
decimal (d ∷ digits) v = decimal digits (v * 10 + (d - b'0'))

-- A canonical authority: the host, the port, and whether the port was written.
pub record Authority : Type 0 where
  pub host : List ℕ
  pub port : ℕ
  pub explicit : Bool

-- What stands behind the host.
unfoldable pub norm_port : List ℕ → ℕ → List ℕ → Result Authority
norm_port host default_port [] = ok (record { host = host; port = default_port; explicit = false })
norm_port host default_port (colon ∷ digits) =
    let port = decimal digits 0 in
    if not (colon == b':')
    then err bad_host
    else if length digits == 0
    then ok (record { host = host; port = default_port; explicit = false })
    else if ltb 5 (length digits)
    then err bad_port
    else if any (λ b. not (is_digit b)) digits
    then err bad_port
    else if not (between 1 65535 port)
    then err bad_port
    else ok (record { host = host; port = port; explicit = true })

-- The host without a trailing dot, in lower case, where the source's length tests pass.
unfoldable pub norm_name : List ℕ → ℕ → List ℕ → Result Authority
norm_name raw default_port rest =
    let dot =
      not (get_or raw 0 0 == b'[')
      && (ltb 1 (length raw) && (get_or raw (length raw - 1) 0 == b'.')) in
    let len = if dot then length raw - 1 else length raw in
    if len == 0
    then err empty_host
    else if ltb max_host len
    then err oversize
    else norm_port (map to_lower (take len raw)) default_port rest

-- The first byte that no authority may have.
unfoldable pub bad_byte : List ℕ → Result (Unit {0})
bad_byte [] = ok tt
bad_byte (b ∷ s) =
    let rest = bad_byte s in
    if leb 128 b || b == b'%' then err non_ascii else if b == b'@' then err bad_host else rest

unfoldable pub norm_host : List ℕ → ℕ → Result Authority
norm_host src default_port =
    let close = until b']' (drop 1 src) in
    let colon = until b':' src in
    if length src == 0
    then err empty_host
    else if ltb (max_host + port_suffix_max) (length src)
    then err oversize
    else bad_byte src >>= λ _.
        if get_or src 0 0 == b'['
        then if (length src == close + 1) || not (ipv6_ok (take close (drop 1 src)))
          then err bad_host
          else norm_name (take (close + 2) src) default_port (drop (close + 2) src)
        else if any (λ b. b == b':') (drop (colon + 1) src) || not (reg_name_ok (take colon src))
        then err bad_host
        else norm_name (take colon src) default_port (drop colon src)
