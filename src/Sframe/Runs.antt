-- ===== src/Sframe/Runs.antt =====
-- Runs of the replay window and the header codec, and their theorems at concrete inputs.
use wave.Common.{ℕ, ◌≡◌, refl, arith, true, false, some, List, [], ◌∷◌, ◌++◌}
use wave.Sframe.Replay.{empty, slide, accept_old, accept}
use wave.Sframe.Replay.Stream.{accept_all, admit_all, after, replay_refines, no_replay}
use wave.Sframe.Header.{
  width_loop, width, header_len, config_kid, config_byte, write_be, write, parse,
}
use wave.Sframe.Header.RoundTrip.{encoding, parse-header_encoding}

abbrev arrivals : List ℕ
arrivals = 5 ∷ 9 ∷ 7 ∷ 9 ∷ 100 ∷ 7 ∷ 36 ∷ 37 ∷ []

arrivals_judged :
    accept_all empty arrivals ≡ true ∷ true ∷ true ∷ false ∷ true ∷ false ∷ false ∷ true ∷ []
unfolding accept_all accept accept_old slide
arrivals_judged = refl

replay_refines_example : accept_all empty arrivals ≡ admit_all [] arrivals
replay_refines_example = replay_refines arrivals

seven_taken : (accept (after empty (5 ∷ 9 ∷ [])) 7).0 ≡ true
unfolding after accept accept_old slide
seven_taken = refl

no_replay_example :
    (accept (after (accept (after empty (5 ∷ 9 ∷ [])) 7).1 (8 ∷ 40 ∷ [])) 7).0 ≡ false
no_replay_example = no_replay (5 ∷ 9 ∷ []) (8 ∷ 40 ∷ []) 7 seven_taken

abbrev room : List ℕ
room = 1 ∷ 2 ∷ 3 ∷ 4 ∷ 5 ∷ []

wrote : write 3 300 room ≡ some (3, 0x39 ∷ 1 ∷ 44 ∷ 4 ∷ 5 ∷ [])
unfolding write write_be config_byte config_kid width width_loop
wrote = refl

parse-header_encoding_example :
    parse (encoding 3 300 ++ (9 ∷ []))
    ≡ some (record { key_id = 3; counter = 300; header_len = header_len 3 300 })
parse-header_encoding_example = parse-header_encoding 3 300 (9 ∷ []) (omega arith) (omega arith)
