-- ===== src/Sip/Dialog.antt =====
-- modules/common/sip_dialog.rs: the dialog machine of a two-party call. A method that changes `self`
-- returns the new machine beside its answer.
pub mod Calls
use wave.Common.{ℕ, ◌+◌, Bool, true, false, ◌&&◌, Option, none, some, leb, ltb, if◌then◌else◌}

-- `SIP_MAX_RETRANSMIT`
abbrev pub max_retransmit : ℕ
max_retransmit = 7

-- `SipState`
pub data State : Type 0 where
  ready inviting wait_ack active bye_sent : State

-- `SipEvent`
pub data Event : Type 0 where
  local_invite local_bye : Event
  rx_invite : (answer : Bool) → Event
  rx_ack rx_bye : Event
  rx_response : (code : ℕ) → Event
  timeout : Event

-- `SipSend`
pub data Send : Type 0 where
  invite ok ack bye bye_ok retransmit : Send

-- `MediaCmd`
pub data MediaCmd : Type 0 where
  keep start stop : MediaCmd

-- `SipStep`
pub record Step : Type 0 where
  pub send : Option Send
  pub media : MediaCmd
  pub reset_timer : Bool

-- `SipStep::NONE`
abbrev pub no_step : Step
no_step = record { send = none; media = keep; reset_timer = false }

-- `SipStep::send`
abbrev pub send_step : Send → Step
send_step msg = record { send = some msg; media = keep; reset_timer = true }

-- `SipDialogFsm`
pub record Fsm : Type 0 where
  pub state : State
  pub retransmit_count : ℕ

abbrev pub new : Fsm
new = record { state = ready; retransmit_count = 0 }

unfoldable pub on_timeout : Fsm → Step × Fsm
on_timeout f =
    if leb max_retransmit f.retransmit_count
    then (no_step, record f { state = ready })
    else (send_step retransmit, record f { retransmit_count = f.retransmit_count + 1 })

-- The three arms for a response to an `INVITE`, and the default arm.
unfoldable pub on_response : ℕ → Fsm → Step × Fsm
on_response code f =
    if leb 100 code && ltb code 200
    then (
      record { send = none; media = keep; reset_timer = true },
      record f { retransmit_count = 0 },
    )
    else if leb 200 code && ltb code 300
    then (
      record { send = some ack; media = start; reset_timer = false },
      record f { state = active },
    )
    else if leb 300 code
    then (record { send = some ack; media = keep; reset_timer = false }, record f { state = ready })
    else (no_step, f)

-- The match of `on_event`, on the state and the event.
unfoldable pub dispatch : State → Event → Fsm → Step × Fsm
unfolding on_timeout on_response
dispatch ready local_invite f =
    (send_step invite, record f { retransmit_count = 0; state = inviting })
dispatch ready (rx_invite true) f = (
  record { send = some ok; media = start; reset_timer = true },
  record f { retransmit_count = 0; state = wait_ack },
)
dispatch ready (rx_invite false) f = (no_step, f)
dispatch inviting (rx_response code) f = on_response code f
dispatch inviting timeout f = on_timeout f
dispatch wait_ack rx_ack f = (no_step, record f { state = active })
dispatch wait_ack (rx_invite answer) f =
    (record { send = some retransmit; media = keep; reset_timer = false }, f)
dispatch wait_ack timeout f = on_timeout f
dispatch active local_bye f = (
  record { send = some bye; media = stop; reset_timer = true },
  record f { retransmit_count = 0; state = bye_sent },
)
dispatch active rx_bye f =
    (record { send = some bye_ok; media = stop; reset_timer = false }, record f { state = ready })
dispatch bye_sent (rx_response code) f =
    if leb 200 code then (no_step, record f { state = ready }) else (no_step, f)
dispatch bye_sent timeout f = on_timeout f
dispatch _ _ f = (no_step, f)

unfoldable pub on_event : Event → Fsm → Step × Fsm
unfolding dispatch
on_event ev f = dispatch f.state ev f

unfoldable pub on_invite_ok_unusable_sdp : Fsm → Step × Fsm
on_invite_ok_unusable_sdp f = elim f.state [
  | inviting ↦
      (record { send = some ack; media = keep; reset_timer = false }, record f { state = ready })
  | _ ↦ (no_step, f)
]
