-- ===== src/Rtp/Routes/Runs.antt =====
-- Runs of the route table, and its theorems at concrete inputs.
use wave.Common.{◌<◌, ◌≡◌, ◌⊎◌, refl, true, false, none, some, List, [], length, replicate}
use wave.Rtp.Routes.{
  Route, Table, create, name, same_binding, flatten, any_same, add, replace, upsert, accepts,
  specificity, resolve_from, resolve, mid_max, route_max,
}
use wave.Rtp.Routes.Bindings.{Holds, Rebinds, create-Holds}
use wave.Rtp.Routes.Negotiated.{upsert_lem}
use wave.Rtp.Routes.Resolve.{IsBest, NoneAccepts, resolve-IsBest}

-- A route for any sender, and one for a sender of its own.
abbrev any_sender : Route
any_sender = record { mid = replicate 32 0; mid_len = 0; payload_type = 96; ssrc = 0 }

abbrev one_sender : Route
one_sender = record { mid = replicate 32 0; mid_len = 0; payload_type = 96; ssrc = 7 }

upsert_lem_example :
    ((rs' : List Route) × ((upsert create any_sender).1 ≡ true)
      × Holds (upsert create any_sender).0 rs'
      × Rebinds [] rs' any_sender)
    ⊎ ((upsert create any_sender).1 ≡ false)
      × ((upsert create any_sender).0 ≡ create)
      × ((mid_max < any_sender.mid_len)
          ⊎ (any_same [] any_sender ≡ false) × (length {A = Route} [] ≡ route_max))
upsert_lem_example = upsert_lem create [] any_sender create-Holds

abbrev both : Table
both = (upsert (upsert create one_sender).0 any_sender).0

resolve-IsBest_example :
    (resolve both [] 96 7 ≡ none) × NoneAccepts [] 96 7 (flatten both.routes)
    ⊎ (r : Route) × (resolve both [] 96 7 ≡ some r) × IsBest [] 96 7 (flatten both.routes) r
resolve-IsBest_example = resolve-IsBest [] 96 7 both

-- The more specific route wins though it was added first.
specific : resolve both [] 96 7 ≡ some one_sender
unfolding resolve resolve_from accepts specificity flatten upsert add any_same create same_binding
    name
specific = refl

-- Another sender has the general one, and another payload type none.
general : resolve both [] 96 8 ≡ some any_sender
unfolding resolve resolve_from accepts specificity flatten upsert add any_same create same_binding
    name
general = refl

unknown : resolve both [] 97 7 ≡ none
unfolding resolve resolve_from accepts specificity flatten upsert add any_same create same_binding
    name
unknown = refl

-- A second offer does not take another slot.
again : (upsert both one_sender).0.len ≡ 2
unfolding flatten upsert add replace any_same create same_binding name
again = refl
