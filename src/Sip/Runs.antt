-- ===== src/Sip/Runs.antt =====
-- A call and an answered call that is never acknowledged, and the theorems on them.
use wave.Common.{◌≡◌, refl, true, false, [], ◌∷◌}
use wave.Sip.Dialog.{
  ready, inviting, wait_ack, rx_invite, timeout, rx_response, retransmit, Fsm, new, keep,
  on_timeout, dispatch, on_event,
}
use wave.Sip.Dialog.Calls.{
  event, feed, Reach, begin, fed, IsValid, flows, fitting, media_fits, reach-IsValid, expire,
  timeouts_end,
}

abbrev answered : Fsm
answered = (feed (event (rx_invite true)) new).1

abbrev given_up : Fsm
given_up = (expire 8 answered).1

-- The media flow that the answer started is not stopped when the machine gives up.
gives_up_flowing :
    (given_up.state ≡ ready)
    × ((feed (event timeout) (record { state = wait_ack; retransmit_count = 7 })).0.media ≡ keep)
unfolding expire feed on_event dispatch on_timeout
gives_up_flowing = (refl, refl)

answered-Reach : Reach answered true
unfolding feed on_event dispatch
answered-Reach = fed (event (rx_invite true)) begin

reach-IsValid_example : IsValid answered true
reach-IsValid_example = reach-IsValid answered true answered-Reach

media_fits_example :
    (feed (event (rx_response 200)) (record { state = inviting; retransmit_count = 2 })).0.media
    ≡ fitting (event (rx_response 200)) false (
        flows
          (feed
            (event (rx_response 200))
            (record { state = inviting; retransmit_count = 2 })).1.state)
media_fits_example =
    media_fits (event (rx_response 200)) (record { state = inviting; retransmit_count = 2 })

timeouts_end_example :
    expire 3 (record { state = inviting; retransmit_count = 5 })
    ≡ (retransmit ∷ retransmit ∷ [], record { state = ready; retransmit_count = 7 })
timeouts_end_example = timeouts_end inviting 2 5 refl refl
