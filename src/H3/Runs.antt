-- ===== src/H3/Runs.antt =====
-- Runs of the datagram codecs, and their theorems at concrete inputs.
use wave.Common.{ℕ, ◌≡◌, refl, arith, none, some, List, [], ◌∷◌, ◌++◌}
use wave.H3.Datagram.{Datagram, write, parse}
use wave.H3.QuicPayload.{Written, id_width, parse-write_quic}

abbrev small : Datagram
small = record { session_id = 258; context_id = 3; payload = 7 ∷ 8 ∷ [] }

abbrev room : List ℕ
room = 0 ∷ 1 ∷ 2 ∷ 3 ∷ 4 ∷ 5 ∷ 6 ∷ 7 ∷ 8 ∷ 9 ∷ 10 ∷ 11 ∷ 12 ∷ 13 ∷ 14 ∷ 15 ∷ 16 ∷ []

abbrev small_bytes : List ℕ
small_bytes = 2 ∷ 1 ∷ 0 ∷ 0 ∷ 3 ∷ 0 ∷ 0 ∷ 0 ∷ 0 ∷ 0 ∷ 0 ∷ 0 ∷ 2 ∷ 0 ∷ 7 ∷ 8 ∷ []

wrote : write small room ≡ some (16, small_bytes ++ (16 ∷ []))
unfolding write
wrote = refl

parsed : parse small_bytes ≡ some small
unfolding parse
parsed = refl

no_room : write small (0 ∷ []) ≡ none
unfolding write
no_room = refl

parse-write_quic_example : Written 300 (7 ∷ []) room
unfolding id_width
parse-write_quic_example = parse-write_quic 300 2 (7 ∷ []) room refl (omega arith)
