-- ===== src/Route/Key/Sources.antt =====
-- A request has a key only if its target, its sources and its path agree with it.
use wave.Common.{
  same, same_lem, ℕ, suc, ◌+◌, ◌<◌, ◌≡◌, ◌⊎◌, inl, inr, ◌∙◌, refl, ap, sym, arith, Bool, true,
  false, not, ◌&&◌, ◌||◌, Bool-cases, if_split, Option, none, some, Option-cases, if◌then◌else◌,
  ◌==◌, List, [], ◌∷◌, All, length, get_or, take, drop,
}
use mathlib.Core.Path.{subst}
use wave.Route.{
  Error, Result, ok, err, ◌>>=◌, >>=-eq-ok, ambiguous, oversize, non_ascii, empty_host, bad_host,
  bad_port, bad_path, bad_target,
}
use wave.Route.Path.{max_path, norm_path}
use wave.Route.Path.Segments.{render}
use wave.Route.Path.Resolved.{IsClean, empty-IsClean}
use wave.Route.Path.Canonical.{normalised, norm_path_canonical}
use wave.Route.Host.{Authority, norm_host, any, until}
use wave.Route.Target.{
  Form, origin, absolute, authority, asterisk, split_query, authority_end, scheme_end,
  classify_target,
}
use wave.Route.Key.{
  Key, connect, options, admits, target_authority, agrees, sources_from, sources, target_path,
  with_query, key_of, key_for, route_key,
}

-- Empty, or behind a slash.
abbrev pub IsAbsolute : List ℕ → Type 0
IsAbsolute p = (p ≡ []) ⊎ ((rest : List ℕ) × (p ≡ b'/' ∷ rest))

abbrev pub HasPath : Form → Type 0
HasPath asterisk = Unit
HasPath (authority a) = Unit
HasPath (origin p q) = IsAbsolute p
HasPath (absolute a p q) = IsAbsolute p

abbrev OkHasPath : Result Form → Type 0
OkHasPath (ok f) = HasPath f
OkHasPath (err e) = Unit

-- Empty, or behind a slash or a question mark.
abbrev StartsPath : List ℕ → Type 0
StartsPath s =
    (s ≡ []) ⊎ ((b : ℕ) × (rest : List ℕ) × (s ≡ b ∷ rest) × ((b == b'/' || b == b'?') ≡ true))

query-IsAbsolute : (s : List ℕ) → StartsPath s → IsAbsolute (split_query s).0
unfolding split_query until
query-IsAbsolute s (inl e) = inl (rw e refl)
query-IsAbsolute s (inr (b, rest, e, h)) = elim (Bool-cases (b == b'?')) [
  | inl q ↦ inl (rw (e, q) refl)
  | inr q ↦
      let slash : b ≡ b'/' = ground arith in inr (take (until b'?' rest) rest, rw (e, slash) refl)
]

authority_end-drop : (s : List ℕ) → StartsPath (drop (authority_end s) s)
unfolding authority_end
authority_end-drop [] = inl refl
authority_end-drop (b ∷ s) = elim (Bool-cases (b == b'/' || b == b'?')) [
  | inl h ↦ inr (b, s, rw h refl, h)
  | inr h ↦
      let next : authority_end s + 1 ≡ suc (authority_end s) = omega arith in
      rw (h, next) (authority_end-drop s)
]

first-slash : (t : List ℕ) → (get_or t 0 0 == b'/') ≡ true → (rest : List ℕ) × (t ≡ b'/' ∷ rest)
first-slash [] h = cc
first-slash (b ∷ t) h = (t, ground arith)

classify_target-HasPath : (t : List ℕ) → OkHasPath (classify_target t)
unfolding classify_target
classify_target-HasPath t =
    if_split OkHasPath (length t == 0) _ _ (λ _. tt)
      (λ _.
        if_split OkHasPath (any (λ b. b == b'#') t) _ _ (λ _. tt)
          (λ _.
            if_split OkHasPath (same t (b'*' ∷ [])) _ _ (λ _. tt)
              (λ _.
                if_split OkHasPath (get_or t 0 0 == b'/') _ _
                  (λ h.
                    if_split OkHasPath (get_or t 1 0 == b'/') _ _ (λ _. tt)
                      (λ _.
                        let (rest, e) = first-slash t h in
                        query-IsAbsolute t (inr (b'/', rest, e, refl))))
                  (λ _. elim (Option-cases (scheme_end t)) [
                    | inl e ↦ rw e tt
                    | inr (at, e) ↦ rw e (query-IsAbsolute _ (authority_end-drop (drop (at + 3) t)))
                  ]))))

-- A source that is present has this host and this port.
abbrev pub Names : ℕ → List ℕ → ℕ → Option (List ℕ) → Type 0
Names default_port host port none = Unit
Names default_port host port (some src) =
    (explicit : Bool) × (norm_host src default_port
      ≡ ok (record { host = host; port = port; explicit = explicit }))

-- The first source that is present has this canonical authority; one is present.
abbrev pub FirstIs : ℕ → Authority → List (Option (List ℕ)) → Type 0
FirstIs default_port a [] = ⊥
FirstIs default_port a (none ∷ sources) = FirstIs default_port a sources
FirstIs default_port a (some src ∷ sources) = norm_host src default_port ≡ ok a

agrees-err : (first : Authority) (e : Error) → (e' : Error) × (agrees first (err e) ≡ err e')
unfolding agrees
agrees-err first empty_host = (ambiguous, refl)
agrees-err first ambiguous = (ambiguous, refl)
agrees-err first oversize = (oversize, refl)
agrees-err first non_ascii = (non_ascii, refl)
agrees-err first bad_host = (bad_host, refl)
agrees-err first bad_port = (bad_port, refl)
agrees-err first bad_path = (bad_path, refl)
agrees-err first bad_target = (bad_target, refl)

agrees-ok :
    (first a : Authority) (r : Result Authority)
    → agrees first r ≡ ok a
    → (explicit : Bool) × (r
        ≡ ok (record { host = first.host; port = first.port; explicit = explicit }))
agrees-ok first a (err e) h =
    let (e', refused) = agrees-err first e in let bad = sym refused ∙ h in cc
agrees-ok first a (ok b) h = elim (Bool-cases (same b.host first.host)) [
  | inr d ↦
      let refused : agrees first (ok b) ≡ err ambiguous = unfold agrees in rw d refl in
      let bad = sym refused ∙ h in cc
  | inl s ↦ elim (Bool-cases (b.port == first.port)) [
    | inr d ↦
        let refused : agrees first (ok b) ≡ err ambiguous = unfold agrees in rw (s, d) refl in
        let bad = sym refused ∙ h in cc
    | inl p ↦
        let host = same_lem b.host first.host s in
        let port : b.port ≡ first.port = ground arith in
        (b.explicit, ap ok (λ i. record { host = host i; port = port i; explicit = b.explicit }))
  ]
]

sources_from-Names :
    (dp : ℕ) (first a : Authority) (srcs : List (Option (List ℕ)))
    → sources_from dp first srcs ≡ ok a
    → (first ≡ a) × All (Names dp a.host a.port) srcs
unfolding sources_from
sources_from-Names dp first a [] e = (cc, tt)
sources_from-Names dp first a (none ∷ srcs) e =
    let (same, rest) = sources_from-Names dp first a srcs e in (same, (tt, rest))
sources_from-Names dp first a (some src ∷ srcs) e =
    let (b, eb, later) = >>=-eq-ok (agrees first (norm_host src dp)) _ e in
    let (same, rest) = sources_from-Names dp first a srcs later in
    let here = agrees-ok first b (norm_host src dp) eb in
    (same, (subst (λ (x : Authority). Names dp x.host x.port (some src)) same here, rest))

abbrev Agreed : Bool → ℕ → List (Option (List ℕ)) → Authority → Type 0
Agreed c dp srcs a =
    All (Names dp a.host a.port) srcs × (c ≡ true → a.explicit ≡ true) × FirstIs dp a srcs

first-Agreed :
    (c : Bool) (dp : ℕ) (src : List ℕ) (srcs : List (Option (List ℕ))) (first a : Authority)
    → norm_host src dp ≡ ok first
    → (if c && not first.explicit then err bad_target else sources_from dp first srcs) ≡ ok a
    → Agreed c dp (some src ∷ srcs) a
first-Agreed c dp src srcs first a ef e = elim (Bool-cases (c && not first.explicit)) [
  | inl r ↦ let bad = rw r at e in cc
  | inr r ↦
      let (same, names) = sources_from-Names dp first a srcs (rw r at e) in
      let ea : norm_host src dp ≡ ok a = ef ∙ ap ok same in
      let written : c ≡ true → first.explicit ≡ true = λ h. explicit_of c first.explicit h r in
      (
        ((a.explicit, ea), names),
        subst (λ (x : Authority). c ≡ true → x.explicit ≡ true) same written,
        ea,
      )
]
  where
    explicit_of : (c x : Bool) → c ≡ true → (c && not x) ≡ false → x ≡ true
    explicit_of true true h r = refl
    explicit_of true false h r = cc
    explicit_of false x h r = cc

-- The host and the port of a key are those of every source, and one is present. Behind CONNECT the first one
-- had its port written.
sources-Agreed :
    (c : Bool) (dp : ℕ) (srcs : List (Option (List ℕ))) (a : Authority)
    → sources c dp srcs ≡ ok a
    → Agreed c dp srcs a
unfolding sources
sources-Agreed c dp [] a e = cc
sources-Agreed c dp (none ∷ srcs) a e =
    let (names, explicit, one) = sources-Agreed c dp srcs a e in ((tt, names), explicit, one)
sources-Agreed c dp (some src ∷ srcs) a e =
    let (first, ef, later) = >>=-eq-ok (norm_host src dp) _ e in
    first-Agreed c dp src srcs first a ef later

-- The path of a key, by the form of the target.
abbrev pub PathOf : Form → List ℕ → List ℕ → Type 0
PathOf asterisk path query = (path ≡ b'*' ∷ []) × (query ≡ [])
PathOf (authority a) path query = (path ≡ []) × (query ≡ [])
PathOf (origin p q) path query =
    ((segs : List (List ℕ)) × (path ≡ render segs) × All IsClean segs) × (query ≡ q)
PathOf (absolute a p q) path query =
    ((segs : List (List ℕ)) × (path ≡ render segs) × All IsClean segs) × (query ≡ q)

path_found :
    (p buf : List ℕ) (n : ℕ) (written : List ℕ)
    → 0 < length buf
    → IsAbsolute p
    → norm_path p buf ≡ ok (n, written)
    → (segs : List (List ℕ)) × (take n written ≡ render segs) × All IsClean segs
path_found p [] n written room abs h = absurd (omega arith)
path_found p (b ∷ buf) n written room (inl e) h =
    let root : norm_path [] (b ∷ buf) ≡ ok (1, b'/' ∷ buf) = unfold norm_path in refl in
    let answer : ◌≡◌ {A = Result (ℕ × List ℕ)} (ok (n, written)) (ok (1, b'/' ∷ buf)) =
      sym h ∙ ap (λ q. norm_path q (b ∷ buf)) e ∙ root in
    let one : n ≡ 1 = cc in
    let bytes : written ≡ b'/' ∷ buf = cc in ([] ∷ [], rw (one, bytes) refl, (empty-IsClean, tt))
path_found p (b ∷ buf) n written room (inr (rest, e)) h =
    let whole : normalised (b'/' ∷ rest) (b ∷ buf) ≡ ok (take n written) =
      unfold normalised in rw (← e, h) refl in
    let (segs, same, clean, short, fixed) =
      norm_path_canonical rest (b ∷ buf) (b ∷ buf) (take n written) whole in
    (segs, same, clean)

path_and_query :
    (p q buf path query : List ℕ)
    → 0 < length buf
    → IsAbsolute p
    → (norm_path p buf >>= with_query q) ≡ ok (path, query)
    → ((segs : List (List ℕ)) × (path ≡ render segs) × All IsClean segs) × (query ≡ q)
path_and_query p q buf path query room h e =
    let ((n, written), en, later) = >>=-eq-ok (norm_path p buf) _ e in
    let same : take n written ≡ path = cc in
    (
      subst (λ x. (segs : List (List ℕ)) × (x ≡ render segs) × All IsClean segs) same
          (path_found p buf n written room h en),
      cc,
    )

target_path-PathOf :
    (form : Form) (buf path query : List ℕ)
    → 0 < length buf
    → HasPath form
    → target_path form buf ≡ ok (path, query)
    → PathOf form path query
unfolding target_path
target_path-PathOf asterisk buf path query room h e = (cc, cc)
target_path-PathOf (authority a) buf path query room h e = (cc, cc)
target_path-PathOf (origin p q) buf path query room h e = path_and_query p q buf path query room h e
target_path-PathOf (absolute a p q) buf path query room h e =
    path_and_query p q buf path query room h e

module _ (method target : List ℕ) (hh pseudo : Option (List ℕ)) (dp : ℕ) (buf : List ℕ)
    (room : 0 < length buf) where
  abbrev Derived : Key → Form → Type 0
  Derived key form =
      (explicit : Bool) × (admits (same method connect) (same method options) form ≡ true)
      × All (Names dp key.host key.port) (target_authority form ∷ pseudo ∷ hh ∷ [])
      × FirstIs dp (record { host = key.host; port = key.port; explicit = explicit })
          (target_authority form ∷ pseudo ∷ hh ∷ [])
      × (same method connect ≡ true → explicit ≡ true)
      × PathOf form key.path key.query

  from_parts :
      (key : Key) (form : Form) (a : Authority) (path query : List ℕ)
      → admits (same method connect) (same method options) form ≡ true
      → Agreed (same method connect) dp (target_authority form ∷ pseudo ∷ hh ∷ []) a
      → PathOf form path query
      → ok (record { host = a.host; port = a.port; path = path; query = query }) ≡ ok key
      → Derived key form
  from_parts key form a path query r (names, explicit, one) found e =
      let same_key : record { host = a.host; port = a.port; path = path; query = query } ≡ key =
        cc in
      subst (λ k. Derived k form) same_key (a.explicit, r, names, one, explicit, found)

  from_path :
      (key : Key) (form : Form) (a : Authority)
      → HasPath form
      → admits (same method connect) (same method options) form ≡ true
      → sources (same method connect) dp (target_authority form ∷ pseudo ∷ hh ∷ []) ≡ ok a
      → (target_path form buf >>= key_of a) ≡ ok key
      → Derived key form
  from_path key form a has r ea e =
      let ((path, query), ep, last) = >>=-eq-ok (target_path form buf) _ e in
      let found = target_path-PathOf form buf path query room has ep in
      from_parts key form a path query r
        (sources-Agreed (same method connect) dp (target_authority form ∷ pseudo ∷ hh ∷ []) a ea)
        found last

  from_form :
      (key : Key) (form : Form)
      → HasPath form
      → key_for method form hh pseudo dp buf ≡ ok key
      → Derived key form
  unfolding key_for
  from_form key form has e =
      elim (Bool-cases (admits (same method connect) (same method options) form)) [
        | inr r ↦ let bad = rw r at e in cc
        | inl r ↦
            let (a, ea, more) =
              >>=-eq-ok
                (sources (same method connect) dp (target_authority form ∷ pseudo ∷ hh ∷ [])) _
                (rw r at e) in
            from_path key form a has r ea more
      ]

and_not : (a b : Bool) → (a ≡ true → b ≡ true) → (a && not b) ≡ false
and_not true true h = refl
and_not true false h = let e = h refl in cc
and_not false b h = refl

-- A request that has a key: its target is of a form that its method admits; one of its sources is present,
-- which are the authority of the target, the pseudo-header and the Host header, in this order, and the
-- host and the port of the key are the canonical ones of every source that is present; the first one
-- has its port written if the method is CONNECT; and the path is "*", empty, or of clean segments
-- only, by the form of the target.
pub route_key_sound :
    (method target : List ℕ) (host_header authority_pseudo : Option (List ℕ)) (dp : ℕ)
    (buf : List ℕ) (key : Key)
    → length buf ≡ max_path
    → route_key method target host_header authority_pseudo dp buf ≡ ok key
    → (form : Form) × (explicit : Bool) × (classify_target target ≡ ok form)
      × (admits (same method connect) (same method options) form ≡ true)
      × All
          (Names dp key.host key.port)
          (target_authority form ∷ authority_pseudo ∷ host_header ∷ [])
      × FirstIs dp
          (record { host = key.host; port = key.port; explicit = explicit })
          (target_authority form ∷ authority_pseudo ∷ host_header ∷ [])
      × ((same method connect && not explicit) ≡ false)
      × PathOf form key.path key.query
unfolding route_key
route_key_sound method target hh pseudo dp buf key size e =
    let (form, ef, behind) = >>=-eq-ok (classify_target target) _ e in
    let has : HasPath form = subst OkHasPath ef (classify_target-HasPath target) in
    let (explicit, r, names, one, written, found) =
      from_form method target hh pseudo dp buf (omega arith) key form has behind in
    (form, explicit, ef, r, names, one, and_not (same method connect) explicit written, found)
