-- ===== src/Smtp/Runs.antt =====
-- A message and a conversation at concrete inputs.
use wave.Common.{ℕ, ◌≡◌, refl, arith, true, some, List, [], ◌∷◌, ◌++◌, length, drop, replicate}
use wave.Smtp.Body.{smtp_body, ends_crlf}
use wave.Smtp.Body.Stuffing.{stuffed, written}
use wave.Smtp.Body.Receiver.{start, receive, completed, receive-smtp_body}
use wave.Smtp.Session.{no_auth, greet, done, on_reply, after_ehlo}
use wave.Smtp.Session.Delivery.{converse}

-- A line that is a single dot.
abbrev dot_line : List ℕ
dot_line = 104 ∷ 13 ∷ 10 ∷ 46 ∷ 13 ∷ 10 ∷ []

abbrev room : List ℕ
room = replicate 16 0

doubled : stuffed true dot_line ≡ 104 ∷ 13 ∷ 10 ∷ 46 ∷ 46 ∷ 13 ∷ 10 ∷ []
unfolding stuffed
doubled = refl

receive-smtp_body_example :
    (bytes : List ℕ) × (smtp_body dot_line room
      ≡ some (bytes ++ drop (length bytes) room, length bytes))
    × (receive start (bytes ++ 81 ∷ [])
        ≡ some (completed (ends_crlf (written room (stuffed true dot_line))) dot_line, 81 ∷ []))
unfolding stuffed
receive-smtp_body_example = receive-smtp_body dot_line room (81 ∷ []) (omega arith)

abbrev replies : List ℕ
replies = 220 ∷ 250 ∷ 250 ∷ 250 ∷ 354 ∷ 250 ∷ 221 ∷ []

delivers : (converse no_auth greet replies).1 ≡ done
unfolding converse on_reply after_ehlo
delivers = refl
