-- ===== src/Route/Key/Digest.antt =====
-- The bytes that the digest of a key is taken of.
use wave.Common.{
  ℕ, ◌+◌, ◌/◌, ◌^◌, ◌≤◌, ◌≡◌, ◌≢◌, ◌↔◌, ◌∙◌, refl, sym, arith, some, false, ltb, List, [], ◌∷◌,
  ◌++◌, All, length, length-append, take, take-append, drop, copy_at, copy_at_next, append_assoc,
}
use wave.Common.Bytes.{IsU16, u8}
use wave.Route.Key.{Key, domain, route_key_canonical}

-- The domain, the host, a zero, the port, a zero and the path.
abbrev pub canonical_bytes : Key → List ℕ
canonical_bytes key =
    ((domain ++ key.host) ++ 0 ∷ u8 (key.port / 2 ^ 8) ∷ u8 key.port ∷ 0 ∷ []) ++ key.path

length-canonical_bytes :
    (key : Key)
    → length (canonical_bytes key) ≡ length domain + length key.host + 4 + length key.path
length-canonical_bytes key =
    let mid = 0 ∷ u8 (key.port / 2 ^ 8) ∷ u8 key.port ∷ 0 ∷ [] in
    omega (
      arith,
      length-append ((domain ++ key.host) ++ mid) key.path,
      length-append (domain ++ key.host) mid,
      length-append domain key.host,
    )

written :
    (key : Key) (out : List ℕ)
    → length (canonical_bytes key) ≤ length out
    → route_key_canonical key out
      ≡ some (
        length (canonical_bytes key),
        canonical_bytes key ++ drop (length (canonical_bytes key)) out,
      )
unfolding route_key_canonical
written key out room =
    let mid = 0 ∷ u8 (key.port / 2 ^ 8) ∷ u8 key.port ∷ 0 ∷ [] in
    let p1 = domain in
    let p2 = domain ++ key.host in
    let p3 = p2 ++ mid in
    let size = length-canonical_bytes key in
    let o = length domain + length key.host in
    let fits : ltb (length out) (o + 4 + length key.path) ≡ false = ground arith in
    let e2 : o ≡ length p2 = omega (arith, length-append domain key.host) in
    let e3 : o + 4 ≡ length p3 = omega (arith, e2, length-append p2 mid) in
    let start : 0 + length domain ≡ length domain = omega arith in
    let first : copy_at 0 domain out ≡ domain ++ drop (length domain) out =
      copy_at_next [] domain out 0 refl ∙ rw start refl in
    rw (fits, first, copy_at_next p1 key.host out (length domain) refl)
      (rw (copy_at_next p2 mid out o e2) (rw (copy_at_next p3 key.path out (o + 4) e3, size) refl))

cut :
    (h h' x x' : List ℕ)
    → All (λ b. b ≢ 0) h
    → All (λ b. b ≢ 0) h'
    → h ++ 0 ∷ x ≡ h' ++ 0 ∷ x'
    → (h ≡ h') × (x ≡ x')
cut [] [] x x' hz hz' e = (refl, cc)
cut [] (b ∷ h') x x' hz (z, hz') e = absurd (z (cc))
cut (b ∷ h) [] x x' (z, hz) hz' e = absurd (z (cc))
cut (b ∷ h) (b' ∷ h') x x' (z, hz) (z', hz') e =
    let first : b ≡ b' = cc in let (same, rest) = cut h h' x x' hz hz' (cc) in (cc, rest)

drop-same : (a x y : List ℕ) → a ++ x ≡ a ++ y → x ≡ y
drop-same [] x y e = e
drop-same (b ∷ a) x y e = drop-same a x y (cc)

abbrev behind_domain : Key → List ℕ
behind_domain key = key.host ++ 0 ∷ u8 (key.port / 2 ^ 8) ∷ u8 key.port ∷ 0 ∷ key.path

canonical_bytes_lem : (key : Key) → canonical_bytes key ≡ domain ++ behind_domain key
canonical_bytes_lem key = simp append_assoc refl

parts :
    (k k' : Key)
    → All (λ b. b ≢ 0) k.host
    → All (λ b. b ≢ 0) k'.host
    → IsU16 k.port
    → IsU16 k'.port
    → canonical_bytes k ≡ canonical_bytes k'
    → (k.host ≡ k'.host) × (k.port ≡ k'.port) × (k.path ≡ k'.path)
parts k k' hz hz' hp hp' e =
    let same =
      drop-same domain (behind_domain k) (behind_domain k')
        (sym (canonical_bytes_lem k) ∙ e ∙ canonical_bytes_lem k') in
    let (host, rest) = cut k.host k'.host _ _ hz hz' same in
    let high : u8 (k.port / 2 ^ 8) ≡ u8 (k'.port / 2 ^ 8) = cc in
    let low : u8 k.port ≡ u8 k'.port = cc in
    let path : k.path ≡ k'.path = cc in (host, omega arith, path)

-- Two keys whose hosts have no zero byte, written to buffers with room for them, give the same bytes only if
-- they have the same host, port and path.
pub route_key_canonical-injective :
    (k k' : Key) (out out' : List ℕ)
    → All (λ b. b ≢ 0) k.host
    → All (λ b. b ≢ 0) k'.host
    → IsU16 k.port
    → IsU16 k'.port
    → length (canonical_bytes k) ≤ length out
    → length (canonical_bytes k') ≤ length out'
    → (n n' : ℕ) × (b b' : List ℕ) × (route_key_canonical k out ≡ some (n, b))
      × (route_key_canonical k' out' ≡ some (n', b'))
      × ((take n b ≡ take n' b') ↔ ((k.host ≡ k'.host) × (k.port ≡ k'.port) × (k.path ≡ k'.path)))
route_key_canonical-injective k k' out out' hz hz' hp hp' room room' =
    let c = canonical_bytes k in
    let c' = canonical_bytes k' in
    (
      length c,
      length c',
      c ++ drop (length c) out,
      c' ++ drop (length c') out',
      written k out room,
      written k' out' room',
      rw (take-append c (drop (length c) out), take-append c' (drop (length c') out'))
          (λ e. parts k k' hz hz' hp hp' e, λ (host, port, path). rw (host, port, path) refl),
    )
