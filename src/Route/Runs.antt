-- ===== src/Route/Runs.antt =====
-- Runs of the route key, and its theorems at concrete inputs.
use wave.Common.{
  same, not, ◌&&◌, ℕ, ◌≡◌, ◌↔◌, ◌≤◌, refl, arith, Bool, true, false, none, some, List, [], ◌∷◌, All,
  length, take, replicate, length-replicate,
}
use wave.Route.{ok, err, ◌>>=◌, ambiguous}
use wave.Route.Path.{
  unreserved, is_alphanumeric, pchar_ok, hex_val, to_upper, plain, escaped, unescape, until_slash,
  segment_end, pop_segment, step, remove_from, remove_dot_segments, norm_path,
}
use wave.Route.Path.Segments.{render, render_stack, resolve}
use wave.Route.Path.Resolved.{IsClean}
use wave.Route.Path.Escapes.{unescape_all}
use wave.Route.Path.Canonical.{normalised, norm_path_lem, norm_path_canonical}
use wave.Route.Host.{
  any, until, is_digit, to_lower, name_byte, name_from, reg_name_ok, decimal, norm_port, norm_name,
  bad_byte, norm_host, is_hex_digit, ipv4_from, ipv4_ok, group_ok, groups_ok, ipv6_from, ipv6_ok,
}
use wave.Route.Target.{Form, split_query, classify_target}
use wave.Route.Key.{
  canon_bytes, route_key_digest, Key, connect, options, admits, target_authority, agrees,
  sources_from, sources, target_path, key_for, route_key, domain, route_key_canonical,
}
use wave.Route.Key.Digest.{route_key_canonical-injective}
use wave.Route.Key.Sources.{FirstIs, Names, PathOf, route_key_sound}

-- The storage for a path.
abbrev storage : List ℕ
storage = replicate 64 0

-- `/a/./b/../%7ec%2f`
abbrev written : List ℕ
written =
    b'/' ∷ b'a' ∷ b'/' ∷ b'.' ∷ b'/' ∷ b'b' ∷ b'/' ∷ b'.' ∷ b'.' ∷ b'/' ∷ b'%' ∷ b'7' ∷ b'e' ∷ b'c'
    ∷ b'%' ∷ b'2' ∷ b'f' ∷ []

-- `/a/~c%2F`
abbrev canonical : List ℕ
canonical = b'/' ∷ b'a' ∷ b'/' ∷ b'~' ∷ b'c' ∷ b'%' ∷ b'2' ∷ b'F' ∷ []

run : normalised written storage ≡ ok canonical
unfolding normalised norm_path unescape plain escaped pchar_ok unreserved is_alphanumeric hex_val
    to_upper remove_dot_segments remove_from step segment_end until_slash pop_segment
run = refl

-- A dot segment at the end leaves a slash, and ".." does not leave the root.
closing_dots :
    remove_dot_segments (b'/' ∷ b'a' ∷ b'/' ∷ b'.' ∷ b'.' ∷ []) 5
    ≡ (b'/' ∷ b'a' ∷ b'/' ∷ b'.' ∷ b'/' ∷ [], 1)
unfolding remove_dot_segments remove_from step segment_end until_slash pop_segment
closing_dots = refl

norm_path_lem_example : normalised (b'/' ∷ b'.' ∷ b'.' ∷ b'/' ∷ b'%' ∷ []) storage ≡ (
    unescape_all ((b'.' ∷ b'.' ∷ []) ∷ (b'%' ∷ []) ∷ []) >>= λ ts.
    ok (render_stack (resolve [] ts)))
norm_path_lem_example =
    norm_path_lem (b'.' ∷ b'.' ∷ []) ((b'%' ∷ []) ∷ []) storage
      ((refl, (refl, tt)), ((refl, tt), tt)) (omega arith)

norm_path_canonical_example :
    (segs : List (List ℕ)) × (canonical ≡ render segs)
    × All IsClean segs
    × (length canonical ≤ 17)
    × (normalised canonical [] ≡ ok canonical)
norm_path_canonical_example = norm_path_canonical _ storage [] canonical run

abbrev key : ℕ → Key
key port = record { host = b'h' ∷ []; port = port; path = b'/' ∷ []; query = [] }

route_key_canonical-injective_example :
    (n n' : ℕ) × (b b' : List ℕ) × (route_key_canonical (key 80) storage ≡ some (n, b))
    × (route_key_canonical (key 443) storage ≡ some (n', b'))
    × ((take n b ≡ take n' b') ↔ (
        ((key 80).host ≡ (key 443).host)
        × ((key 80).port ≡ (key 443).port)
        × ((key 80).path ≡ (key 443).path)))
unfolding domain
route_key_canonical-injective_example =
    route_key_canonical-injective (key 80) (key 443) storage storage (λ e. omega arith, tt)
      (λ e. omega arith, tt) (omega arith) (omega arith) (omega arith) (omega arith)

abbrev get : List ℕ
get = b'G' ∷ b'E' ∷ b'T' ∷ []

-- `H:8080`
abbrev host_line : List ℕ
host_line = b'H' ∷ b':' ∷ b'8' ∷ b'0' ∷ b'8' ∷ b'0' ∷ []

abbrev path_storage : List ℕ
path_storage = replicate 2048 0

derived :
    route_key get (b'/' ∷ b'?' ∷ b'q' ∷ []) (some host_line) none 80 path_storage
    ≡ ok (record { host = b'h' ∷ []; port = 8080; path = b'/' ∷ []; query = b'q' ∷ [] })
unfolding route_key key_for classify_target split_query until any admits target_authority connect
    options sources sources_from norm_host bad_byte reg_name_ok name_from name_byte norm_name
    norm_port to_lower is_digit decimal target_path norm_path unescape plain pchar_ok unreserved
    is_alphanumeric remove_dot_segments remove_from step segment_end until_slash
derived = refl

route_key_sound_example :
    (form : Form) × (explicit : Bool) × (classify_target (b'/' ∷ b'?' ∷ b'q' ∷ []) ≡ ok form)
    × (admits (same get connect) (same get options) form ≡ true)
    × All (Names 80 (b'h' ∷ []) 8080) (target_authority form ∷ none ∷ some host_line ∷ [])
    × FirstIs 80
        (record { host = b'h' ∷ []; port = 8080; explicit = explicit })
        (target_authority form ∷ none ∷ some host_line ∷ [])
    × ((same get connect && not explicit) ≡ false)
    × PathOf form (b'/' ∷ []) (b'q' ∷ [])
route_key_sound_example =
    route_key_sound get (b'/' ∷ b'?' ∷ b'q' ∷ []) (some host_line) none 80 path_storage
      (record { host = b'h' ∷ []; port = 8080; path = b'/' ∷ []; query = b'q' ∷ [] })
      (length-replicate {A = ℕ} 2048 0) derived

-- Two sources that name different ports.
disagreeing :
    route_key get (b'/' ∷ []) (some host_line) (some (b'h' ∷ [])) 80 storage ≡ err ambiguous
unfolding route_key key_for classify_target split_query until any admits target_authority connect
    options sources sources_from agrees norm_host bad_byte reg_name_ok name_from name_byte norm_name
    norm_port to_lower is_digit decimal is_alphanumeric
disagreeing = refl

loopback : ipv6_ok (b':' ∷ b':' ∷ b'1' ∷ []) ≡ true
unfolding ipv6_ok ipv6_from until any group_ok groups_ok is_hex_digit is_digit ipv4_ok ipv4_from
loopback = refl

twice_compressed : ipv6_ok (b'1' ∷ b':' ∷ b':' ∷ b'2' ∷ b':' ∷ b':' ∷ b'3' ∷ []) ≡ false
unfolding ipv6_ok ipv6_from until any group_ok groups_ok is_hex_digit is_digit ipv4_ok ipv4_from
twice_compressed = refl

mapped_v4 :
    ipv6_ok (b':' ∷ b':' ∷ b'f' ∷ b':' ∷ b'1' ∷ b'.' ∷ b'2' ∷ b'.' ∷ b'3' ∷ b'.' ∷ b'4' ∷ []) ≡ true
unfolding ipv6_ok ipv6_from until any group_ok groups_ok is_hex_digit is_digit ipv4_ok ipv4_from
mapped_v4 = refl

-- The widest key fits the buffer of the digest.
digest_buffer : canon_bytes ≡ 2327
unfolding domain
digest_buffer = refl

digested :
    route_key_digest
      (λ bytes. length bytes ∷ [])
      (record { host = b'h' ∷ []; port = 80; path = b'/' ∷ []; query = [] })
    ≡ some (26 ∷ [])
unfolding route_key_digest route_key_canonical domain
digested = refl
