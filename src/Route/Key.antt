-- ===== src/Route/Key.antt =====
-- The key of a request: `route_key`, and the bytes that its digest is taken of.
pub mod Digest
pub mod Sources
use wave.Common.{
  same, ℕ, ◌+◌, ◌/◌, ◌^◌, Bool, true, false, not, ◌&&◌, ◌||◌, Option, none, some, if◌then◌else◌,
  ltb, ◌==◌, List, [], ◌∷◌, ◌++◌, length, take, replicate, copy_at,
}
use wave.Common.Bytes.{u8}
use wave.Route.{Error, Result, ok, err, ◌>>=◌, ambiguous, empty_host, bad_target}
use wave.Route.Path.{max_path, norm_path}
use wave.Route.Host.{max_host, Authority, norm_host}
use wave.Route.Target.{Form, origin, absolute, authority, asterisk, classify_target}

-- `RouteKey`
pub record Key : Type 0 where
  pub host : List ℕ
  pub port : ℕ
  pub path : List ℕ
  pub query : List ℕ

unfoldable pub connect : List ℕ
connect = b'C' ∷ b'O' ∷ b'N' ∷ b'N' ∷ b'E' ∷ b'C' ∷ b'T' ∷ []

unfoldable pub options : List ℕ
options = b'O' ∷ b'P' ∷ b'T' ∷ b'I' ∷ b'O' ∷ b'N' ∷ b'S' ∷ []

-- Whether the method admits the form of the target.
unfoldable pub admits : Bool → Bool → Form → Bool
admits is_connect is_options asterisk = is_options
admits is_connect is_options (authority a) = is_connect
admits is_connect is_options (origin p q) = not is_connect
admits is_connect is_options (absolute a p q) = not is_connect

unfoldable pub target_authority : Form → Option (List ℕ)
target_authority (absolute a p q) = some a
target_authority (authority a) = some a
target_authority (origin p q) = none
target_authority asterisk = none

-- A later source must have the host and the port of the first.
unfoldable pub agrees : Authority → Result Authority → Result Authority
agrees first (ok a) =
    if not (same a.host first.host) || not (a.port == first.port) then err ambiguous else ok first
agrees first (err empty_host) = err ambiguous
agrees first (err e) = err e

-- The loop over the sources, behind the first one that was present.
unfoldable pub sources_from : ℕ → Authority → List (Option (List ℕ)) → Result Authority
sources_from default_port first [] = ok first
sources_from default_port first (none ∷ sources) = sources_from default_port first sources
sources_from default_port first (some src ∷ sources) =
    agrees first (norm_host src default_port) >>= λ _. sources_from default_port first sources

unfoldable pub sources : Bool → ℕ → List (Option (List ℕ)) → Result Authority
sources is_connect default_port [] = err empty_host
sources is_connect default_port (none ∷ rest) = sources is_connect default_port rest
sources is_connect default_port (some src ∷ rest) = norm_host src default_port >>= λ first.
    if is_connect && not first.explicit
    then err bad_target
    else sources_from default_port first rest

abbrev pub with_query : List ℕ → ℕ × List ℕ → Result (List ℕ × List ℕ)
with_query query (n, written) = ok (take n written, query)

unfoldable pub target_path : Form → List ℕ → Result (List ℕ × List ℕ)
target_path asterisk buf = ok (b'*' ∷ [], [])
target_path (authority a) buf = ok ([], [])
target_path (origin path query) buf = norm_path path buf >>= with_query query
target_path (absolute a path query) buf = norm_path path buf >>= with_query query

abbrev pub key_of : Authority → List ℕ × List ℕ → Result Key
key_of a (path, query) = ok (record { host = a.host; port = a.port; path = path; query = query })

-- The part of `route_key` behind the classification of the target.
unfoldable pub key_for : List ℕ → Form → Option (List ℕ) → Option (List ℕ) → ℕ → List ℕ → Result Key
key_for method form host_header authority_pseudo default_port buf =
    let is_connect = same method connect in
    if not (admits is_connect (same method options) form)
    then err bad_target
    else sources is_connect default_port
        (target_authority form ∷ authority_pseudo ∷ host_header ∷ [])
      >>= λ a. target_path form buf >>= key_of a

-- `buf` is the storage for the path.
unfoldable pub route_key :
    List ℕ → List ℕ → Option (List ℕ) → Option (List ℕ) → ℕ → List ℕ → Result Key
route_key method target host_header authority_pseudo default_port buf =
    classify_target target >>= λ form.
    key_for method form host_header authority_pseudo default_port buf

-- `wave-http-route-key`, ended by a zero.
unfoldable pub domain : List ℕ
domain =
    b'w' ∷ b'a' ∷ b'v' ∷ b'e' ∷ b'-' ∷ b'h' ∷ b't' ∷ b't' ∷ b'p' ∷ b'-' ∷ b'r' ∷ b'o' ∷ b'u' ∷ b't'
    ∷ b'e' ∷ b'-' ∷ b'k' ∷ b'e' ∷ b'y' ∷ 0 ∷ []

unfoldable pub route_key_canonical : Key → List ℕ → Option (ℕ × List ℕ)
route_key_canonical key out =
    let start = length domain in
    let o = start + length key.host in
    let need = start + length key.host + 4 + length key.path in
    if ltb (length out) need
    then none
    else some (
      o + 4 + length key.path,
      copy_at (o + 4) key.path (
          copy_at o (0 ∷ u8 (key.port / 2 ^ 8) ∷ u8 key.port ∷ 0 ∷ [])
            (copy_at start key.host (copy_at 0 domain out))),
    )

-- `ROUTE_KEY_CANON_BYTES`
abbrev pub canon_bytes : ℕ
canon_bytes = length domain + max_host + 4 + max_path

-- The hash is a parameter, as it is in the source.
unfoldable pub route_key_digest : (List ℕ → List ℕ) → Key → Option (List ℕ)
route_key_digest sha256 key = elim (route_key_canonical key (replicate canon_bytes 0)) [
  | none ↦ none
  | some (n, out) ↦ some (sha256 (take n out))
]
