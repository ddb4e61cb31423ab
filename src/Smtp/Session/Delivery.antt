-- ===== src/Smtp/Session/Delivery.antt =====
-- Whole conversations of the SMTP client: which replies deliver a message.
use wave.Common.{ℕ, Option, none, some, List, [], ◌∷◌}
use wave.Smtp.Session.{
  Phase, disconnected, connecting, greet, ehlo, auth, mail_from, rcpt_to, data_phase, body, quit,
  done, failed, Cmd, send_ehlo, send_auth, send_mail_from, send_rcpt_to, send_data, send_body,
  send_quit, complete, AuthPlan, no_auth, plain, refuse, on_reply,
}

-- The replies and the commands they are answered with, and the phase behind them.
unfoldable pub converse : AuthPlan → Phase → List ℕ → List (ℕ × Cmd) × Phase
converse creds phase [] = ([], phase)
converse creds phase (code ∷ codes) =
    let (cmd, next) = on_reply phase code creds in
    let later = converse creds next codes in ((code, cmd) ∷ later.0, later.1)

-- The exchanges from the answer to MAIL FROM on.
unfoldable pub from_mail : List (ℕ × Cmd)
from_mail =
    (250, send_rcpt_to)
    ∷ (250, send_data)
    ∷ (354, send_body)
    ∷ (250, send_quit)
    ∷ (221, complete)
    ∷ []

-- The exchanges that deliver a message from the answer to EHLO on.
unfoldable pub from_ehlo : AuthPlan → Option (List (ℕ × Cmd))
unfolding from_mail
from_ehlo no_auth = some ((250, send_mail_from) ∷ from_mail)
from_ehlo plain = some ((250, send_auth) ∷ (235, send_mail_from) ∷ from_mail)
from_ehlo refuse = none

-- The exchanges that deliver a message: none does when credentials may not be sent.
unfoldable pub script : AuthPlan → Option (List (ℕ × Cmd))
unfolding from_mail
script no_auth = some ((220, send_ehlo) ∷ (250, send_mail_from) ∷ from_mail)
script plain = some ((220, send_ehlo) ∷ (250, send_auth) ∷ (235, send_mail_from) ∷ from_mail)
script refuse = none

-- What is missing to a delivered message.
missing : AuthPlan → Phase → Option (List (ℕ × Cmd))
missing creds disconnected = none
missing creds connecting = none
missing creds greet = script creds
missing creds ehlo = from_ehlo creds
missing creds auth = some ((235, send_mail_from) ∷ from_mail)
missing creds mail_from = some from_mail
missing creds rcpt_to =
    some ((250, send_data) ∷ (354, send_body) ∷ (250, send_quit) ∷ (221, complete) ∷ [])
missing creds data_phase = some ((354, send_body) ∷ (250, send_quit) ∷ (221, complete) ∷ [])
missing creds body = some ((250, send_quit) ∷ (221, complete) ∷ [])
missing creds quit = some ((221, complete) ∷ [])
missing creds done = some []
missing creds failed = none
