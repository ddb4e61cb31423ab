-- ===== src/Rtp/Routes.antt =====
-- The table of negotiated routes, modules/common/rtp_route.rs.
pub mod Bindings
mod Runs
pub mod Negotiated
pub mod Resolve
use wave.Common.{
  ℕ, suc, ◌+◌, Bool, true, false, not, ◌&&◌, ◌||◌, if◌then◌else◌, ltb, leb, ◌==◌, ◌!=◌, Option,
  none, some, List, [], ◌∷◌, length, take, set, replicate, same,
}

abbrev pub route_max : ℕ
route_max = 16

abbrev pub mid_max : ℕ
mid_max = 32

-- `RtpRoute`
pub record Route : Type 0 where
  pub mid : List ℕ
  pub mid_len : ℕ
  pub payload_type : ℕ
  pub ssrc : ℕ

-- `RtpRouteTable`
pub record Table : Type 0 where
  pub routes : List (Option Route)
  pub len : ℕ

unfoldable pub create : Table
create = record { routes = replicate route_max none; len = 0 }

-- `&r.mid[..r.mid_len]`
unfoldable pub name : Route → List ℕ
name r = take r.mid_len r.mid

unfoldable pub same_binding : Route → Route → Bool
same_binding r q =
    (r.payload_type == q.payload_type)
    && ((r.ssrc == q.ssrc) && ((r.mid_len == q.mid_len) && same (name r) (name q)))

-- `iter().flatten()`
unfoldable pub flatten : List (Option Route) → List Route
flatten [] = []
flatten (none ∷ slots) = flatten slots
flatten (some r ∷ slots) = r ∷ flatten slots

unfoldable pub any_same : List Route → Route → Bool
any_same [] q = false
any_same (r ∷ rs) q = same_binding r q || any_same rs q

unfoldable pub add : Table → Route → Table × Bool
add t route =
    if ltb mid_max route.mid_len
    then (t, false)
    else if any_same (flatten t.routes) route
    then (t, false)
    else if t.len == route_max
    then (t, false)
    else (record { routes = set t.routes t.len (some route); len = t.len + 1 }, true)

-- The first slot with the same binding takes the route.
unfoldable pub replace : List (Option Route) → Route → List (Option Route)
replace [] q = []
replace (none ∷ slots) q = none ∷ replace slots q
replace (some r ∷ slots) q =
    let later = some r ∷ replace slots q in if same_binding r q then some q ∷ slots else later

unfoldable pub upsert : Table → Route → Table × Bool
upsert t route =
    if ltb mid_max route.mid_len
    then (t, false)
    else if any_same (flatten t.routes) route
    then (record { routes = replace t.routes route; len = t.len }, true)
    else add t route

-- Whether a route can carry a packet.
unfoldable pub accepts : Route → List ℕ → ℕ → ℕ → Bool
accepts r mid payload_type ssrc = not (
    r.payload_type != payload_type
    || ((r.ssrc != 0 && r.ssrc != ssrc) || (r.mid_len != 0 && not (same (name r) mid))))

unfoldable pub specificity : Route → ℕ
specificity r = (if r.ssrc == 0 then 0 else 1) + (if r.mid_len == 0 then 0 else 1)

-- The loop of `resolve`.
unfoldable pub resolve_from : List Route → List ℕ → ℕ → ℕ → Option Route → ℕ → Option Route
resolve_from [] mid payload_type ssrc best score = best
resolve_from (r ∷ rs) mid payload_type ssrc best score =
    let wins = accepts r mid payload_type ssrc && leb score (specificity r) in
    resolve_from rs mid payload_type ssrc (if wins then some r else best)
      (if wins then specificity r else score)

unfoldable pub resolve : Table → List ℕ → ℕ → ℕ → Option Route
resolve t mid payload_type ssrc = resolve_from (flatten t.routes) mid payload_type ssrc none 0
