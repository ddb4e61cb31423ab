-- ===== src/Sip/Dialog/Calls.antt =====
-- What the dialog machine promises over whole calls.
use wave.Common.{
  ℕ, zero, suc, ◌+◌, ◌≤◌, ◌<◌, ◌≡◌, refl, ap, arith, Bool, true, false, Option, none, some, List,
  [], ◌∷◌, replicate,
}
use wave.Sip.Dialog.{
  State, ready, wait_ack, active, Event, timeout, Send, retransmit, MediaCmd, keep, start, stop,
  Step, no_step, send_step, Fsm, new, on_timeout, on_response, dispatch, on_event,
  on_invite_ok_unusable_sdp,
}

-- Whether the media flow runs, and what a command makes of it.
abbrev pub after_media : MediaCmd → Bool → Bool
after_media keep m = m
after_media start m = true
after_media stop m = false

-- What the module feeds to the machine: an event, or a success whose answer is unusable.
pub data Input : Type 0 where
  event : Event → Input
  unusable_sdp : Input

unfoldable pub feed : Input → Fsm → Step × Fsm
unfolding on_event on_invite_ok_unusable_sdp
feed (event e) f = on_event e f
feed unusable_sdp f = on_invite_ok_unusable_sdp f

-- One call after another: `Reach f m` is that the machine can be `f` with the media flow in `m`.
pub data Reach : Fsm → Bool → Type 0 where
  begin : Reach new false
  fed :
      {f : Fsm} {m : Bool} (i : Input)
      → Reach f m
      → Reach (feed i f).1 (after_media (feed i f).0.media m)

-- Whether the state is one in which media flows.
abbrev pub flows : State → Bool
flows wait_ack = true
flows active = true
flows _ = false

-- The attempts are bounded, and media runs in the states that promise it.
pub record IsValid (f : Fsm) (m : Bool) : Type 0 where
  pub few : f.retransmit_count ≤ 7
  pub flowing : flows f.state ≡ true → m ≡ true

feed-few : (i : Input) (f : Fsm) → f.retransmit_count ≤ 7 → (feed i f).1.retransmit_count ≤ 7
unfolding feed on_event dispatch on_timeout on_response on_invite_ok_unusable_sdp
feed-few i f h = ground arith

-- The media command that fits a change of the state: a start when media begins to flow, a stop when
-- it ends, unless the timer ended it.
abbrev pub fitting : Input → Bool → Bool → MediaCmd
fitting i false true = start
fitting (event timeout) true false = keep
fitting i true false = stop
fitting i _ _ = keep

-- The media command of every input fits the change of the state: start when the dialog enters the
-- states with media, which are the one that waits for the ACK of an answer and the active one, stop
-- when it leaves them otherwise than by the timer, and none in all other cases, a leave by the
-- timer among them.
pub media_fits :
    (i : Input) (f : Fsm)
    → (feed i f).0.media ≡ fitting i (flows f.state) (flows (feed i f).1.state)
unfolding feed on_event dispatch on_timeout on_response on_invite_ok_unusable_sdp
media_fits i f = ground arith

flow_kept :
    (i : Input) (before after m : Bool)
    → (before ≡ true → m ≡ true)
    → after ≡ true
    → after_media (fitting i before after) m ≡ true
flow_kept i before after m h e = ground arith

pub feed-IsValid :
    (i : Input) (f : Fsm) (m : Bool)
    → IsValid f m
    → IsValid (feed i f).1 (after_media (feed i f).0.media m)
feed-IsValid i f m v = record {
  few = feed-few i f v.few;
  flowing = λ e.
      rw (media_fits i f) (flow_kept i (flows f.state) (flows (feed i f).1.state) m v.flowing e);
}

-- Whatever is fed to the machine from its start, it counts at most seven attempts, and media runs
-- whenever it waits for the ACK of an answered call or is active.
pub reach-IsValid : (f : Fsm) (m : Bool) → Reach f m → IsValid f m
reach-IsValid _ _ begin = record { few = omega arith; flowing = λ e. cc }
reach-IsValid _ _ (fed {f} {m} i r) = feed-IsValid i f m (reach-IsValid f m r)

-- A state that waits for an answer.
abbrev pub waits : State → Bool
waits ready = false
waits active = false
waits _ = true

abbrev add : Option Send → List Send → List Send
add none rest = rest
add (some msg) rest = msg ∷ rest

-- The message of a step, in front of what follows.
abbrev before : (Fsm → List Send × Fsm) → Step × Fsm → List Send × Fsm
before rest (step, f) = (add step.send (rest f).0, (rest f).1)

-- The messages sent in `n` timer expiries, and the machine behind them.
unfoldable pub expire : ℕ → Fsm → List Send × Fsm
unfolding on_event
expire zero f = ([], f)
expire (suc n) f = before (expire n) (on_event timeout f)

resend :
    (s : State) (c : ℕ)
    → waits s ≡ true
    → c < 7
    → on_event timeout (record { state = s; retransmit_count = c })
      ≡ (send_step retransmit, record { state = s; retransmit_count = c + 1 })
unfolding on_event dispatch on_timeout
resend s c w h = ground arith

give_up :
    (s : State)
    → waits s ≡ true
    → on_event timeout (record { state = s; retransmit_count = 7 })
      ≡ (no_step, record { state = ready; retransmit_count = 7 })
unfolding on_event dispatch on_timeout
give_up s w = ground arith

expire-resend :
    (n : ℕ) (s : State) (c : ℕ)
    → waits s ≡ true
    → c < 7
    → expire (suc n) (record { state = s; retransmit_count = c }) ≡ (
      retransmit ∷ (expire n (record { state = s; retransmit_count = c + 1 })).0,
      (expire n (record { state = s; retransmit_count = c + 1 })).1,
    )
unfolding expire
expire-resend n s c w h = ap (before (expire n)) (resend s c w h)

expire-give_up :
    (s : State)
    → waits s ≡ true
    → expire 1 (record { state = s; retransmit_count = 7 })
      ≡ ([], record { state = ready; retransmit_count = 7 })
unfolding expire
expire-give_up s w = ap (before (expire 0)) (give_up s w)

-- A state that waits for an answer, with `c` of the seven attempts made, resends its message once
-- in each of the first `7 - c` timer expiries, and gives up to ready in the next.
pub timeouts_end :
    (s : State) (left c : ℕ)
    → waits s ≡ true
    → c + left ≡ 7
    → expire (suc left) (record { state = s; retransmit_count = c })
      ≡ (replicate left retransmit, record { state = ready; retransmit_count = 7 })
timeouts_end s zero c w h = let full : c ≡ 7 = omega arith in rw full (expire-give_up s w)
timeouts_end s (suc left) c w h =
    rw (expire-resend (suc left) s c w (omega arith), timeouts_end s left (c + 1) w (omega arith))
      refl
