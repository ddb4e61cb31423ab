-- ===== src/Ws/Phase.antt =====
-- The client's state machine, `ws_transition` of modules/common/ws_core.rs.
use wave.Common.{◌≡◌, ◌⊎◌, inl, inr, refl, ap, Bool, true, false, ◌&&◌, List, [], ◌∷◌, ◌++◌}

-- `WsPhase`
pub data Phase : Type 0 where
  disconnected connecting await_upgrade ready : Phase

-- `WsEv`
pub data Event : Type 0 where
  start connected upgraded upgrade_failed peer_closed net_error : Event

-- `WsAct`
pub data Action : Type 0 where
  nothing connect send_upgrade fail : Action

unfoldable pub transition : Phase → Event → Action × Phase
transition disconnected start = (connect, connecting)
transition connecting connected = (send_upgrade, await_upgrade)
transition await_upgrade upgraded = (nothing, ready)
transition await_upgrade upgrade_failed = (fail, disconnected)
transition p peer_closed = (fail, disconnected)
transition p net_error = (fail, disconnected)
transition p _ = (nothing, p)

-- The phase after a sequence of events.
unfoldable pub run : Phase → List Event → Phase
unfolding transition
run p [] = p
run p (e ∷ es) = run (transition p e).1 es

-- Events that tear no connection down.
unfoldable pub stays : Event → Bool
stays peer_closed = false
stays net_error = false
stays e = true

abbrev pub all_stay : List Event → Bool
all_stay [] = true
all_stay (e ∷ es) = stays e && all_stay es

-- The three events of an opening handshake, in order, with no loss of the connection since the first.
pub record Handshake (es : List Event) : Type 0 where
  pub before : List Event
  pub opening : List Event
  pub upgrading : List Event
  pub open_since : List Event
  pub events : es ≡ before ++ start ∷ (opening ++ connected ∷ (upgrading ++ upgraded ∷ open_since))
  pub kept : (all_stay opening && (all_stay upgrading && all_stay open_since)) ≡ true

later : (e : Event) (es : List Event) → Handshake es → Handshake (e ∷ es)
later e es h = record {
  before = e ∷ h.before;
  opening = h.opening;
  upgrading = h.upgrading;
  open_since = h.open_since;
  events = ap (λ t. e ∷ t) h.events;
  kept = h.kept;
}

-- What is still to come, from each phase on.
abbrev ToReady : Phase → List Event → Type 0
ToReady disconnected es = Handshake es
ToReady connecting es =
    Handshake es
    ⊎ ((b c d : List Event) × (es ≡ b ++ connected ∷ (c ++ upgraded ∷ d))
        × ((all_stay b && (all_stay c && all_stay d)) ≡ true))
ToReady await_upgrade es =
    Handshake es
    ⊎ ((c d : List Event) × (es ≡ c ++ upgraded ∷ d) × ((all_stay c && all_stay d) ≡ true))
ToReady ready es = Handshake es ⊎ (all_stay es ≡ true)

lost : (p : Phase) (e : Event) (es : List Event) → Handshake es → ToReady p (e ∷ es)
lost disconnected e es h = later e es h
lost connecting e es h = inl (later e es h)
lost await_upgrade e es h = inl (later e es h)
lost ready e es h = inl (later e es h)

ignored :
    (p : Phase) (e : Event) (es : List Event) → stays e ≡ true → ToReady p es → ToReady p (e ∷ es)
ignored disconnected e es s h = later e es h
ignored connecting e es s (inl h) = inl (later e es h)
ignored connecting e es s (inr (b, c, d, q, k)) = inr (e ∷ b, c, d, ap (λ t. e ∷ t) q, rw s k)
ignored await_upgrade e es s (inl h) = inl (later e es h)
ignored await_upgrade e es s (inr (c, d, q, k)) = inr (e ∷ c, d, ap (λ t. e ∷ t) q, rw s k)
ignored ready e es s (inl h) = inl (later e es h)
ignored ready e es s (inr k) = inr (rw s k)

started : (es : List Event) → ToReady connecting es → Handshake (start ∷ es)
started es (inl h) = later start es h
started es (inr (b, c, d, q, k)) = record {
  before = [];
  opening = b;
  upgrading = c;
  open_since = d;
  events = ap (λ t. start ∷ t) q;
  kept = k;
}

joined : (es : List Event) → ToReady await_upgrade es → ToReady connecting (connected ∷ es)
joined es (inl h) = inl (later connected es h)
joined es (inr (c, d, q, k)) = inr ([], c, d, ap (λ t. connected ∷ t) q, k)

switched : (es : List Event) → ToReady ready es → ToReady await_upgrade (upgraded ∷ es)
switched es (inl h) = inl (later upgraded es h)
switched es (inr k) = inr ([], es, refl, k)

to_ready : (p : Phase) (es : List Event) → run p es ≡ ready → ToReady p es
unfolding run transition stays
to_ready disconnected [] h = cc
to_ready connecting [] h = cc
to_ready await_upgrade [] h = cc
to_ready ready [] h = inr refl
to_ready disconnected (start ∷ es) h = started es (to_ready connecting es h)
to_ready disconnected (connected ∷ es) h =
    ignored disconnected connected es refl (to_ready disconnected es h)
to_ready disconnected (upgraded ∷ es) h =
    ignored disconnected upgraded es refl (to_ready disconnected es h)
to_ready disconnected (upgrade_failed ∷ es) h =
    ignored disconnected upgrade_failed es refl (to_ready disconnected es h)
to_ready disconnected (peer_closed ∷ es) h =
    lost disconnected peer_closed es (to_ready disconnected es h)
to_ready disconnected (net_error ∷ es) h =
    lost disconnected net_error es (to_ready disconnected es h)
to_ready connecting (start ∷ es) h = ignored connecting start es refl (to_ready connecting es h)
to_ready connecting (connected ∷ es) h = joined es (to_ready await_upgrade es h)
to_ready connecting (upgraded ∷ es) h =
    ignored connecting upgraded es refl (to_ready connecting es h)
to_ready connecting (upgrade_failed ∷ es) h =
    ignored connecting upgrade_failed es refl (to_ready connecting es h)
to_ready connecting (peer_closed ∷ es) h =
    lost connecting peer_closed es (to_ready disconnected es h)
to_ready connecting (net_error ∷ es) h = lost connecting net_error es (to_ready disconnected es h)
to_ready await_upgrade (start ∷ es) h =
    ignored await_upgrade start es refl (to_ready await_upgrade es h)
to_ready await_upgrade (connected ∷ es) h =
    ignored await_upgrade connected es refl (to_ready await_upgrade es h)
to_ready await_upgrade (upgraded ∷ es) h = switched es (to_ready ready es h)
to_ready await_upgrade (upgrade_failed ∷ es) h =
    lost await_upgrade upgrade_failed es (to_ready disconnected es h)
to_ready await_upgrade (peer_closed ∷ es) h =
    lost await_upgrade peer_closed es (to_ready disconnected es h)
to_ready await_upgrade (net_error ∷ es) h =
    lost await_upgrade net_error es (to_ready disconnected es h)
to_ready ready (start ∷ es) h = ignored ready start es refl (to_ready ready es h)
to_ready ready (connected ∷ es) h = ignored ready connected es refl (to_ready ready es h)
to_ready ready (upgraded ∷ es) h = ignored ready upgraded es refl (to_ready ready es h)
to_ready ready (upgrade_failed ∷ es) h = ignored ready upgrade_failed es refl (to_ready ready es h)
to_ready ready (peer_closed ∷ es) h = lost ready peer_closed es (to_ready disconnected es h)
to_ready ready (net_error ∷ es) h = lost ready net_error es (to_ready disconnected es h)

-- A connection that is ready after some events from the disconnected phase has seen a start, a
-- connect and an accepted upgrade in this order, with neither a close of the peer nor a network
-- error since that start.
pub ready-Handshake : (es : List Event) → run disconnected es ≡ ready → Handshake es
ready-Handshake es h = to_ready disconnected es h
