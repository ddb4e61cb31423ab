-- ===== src/Smtp/Session.antt =====
-- The delivery phases and the reply lines of modules/common/smtp_core.rs.
pub mod Delivery
pub mod Lines
use wave.Common.{
  ℕ, zero, suc, ◌+◌, ◌-◌, ◌*◌, Bool, true, false, not, ◌&&◌, ◌||◌, Option, none, some, ◌>>=◌,
  if◌then◌else◌, List, [], ◌∷◌, ltb, leb, ◌==◌, ◌!=◌, length, get_or,
}

-- `SmtpPhase`
pub data Phase : Type 0 where
  disconnected : Phase
  connecting : Phase
  greet : Phase
  ehlo : Phase
  auth : Phase
  mail_from : Phase
  rcpt_to : Phase
  data_phase : Phase
  body : Phase
  quit : Phase
  done : Phase
  failed : Phase

-- `SmtpCmd`
pub data Cmd : Type 0 where
  send_ehlo : Cmd
  send_auth : Cmd
  send_mail_from : Cmd
  send_rcpt_to : Cmd
  send_data : Cmd
  send_body : Cmd
  send_quit : Cmd
  complete : Cmd
  fail : Cmd

-- `SmtpAuthPlan`
pub data AuthPlan : Type 0 where
  no_auth : AuthPlan
  plain : AuthPlan
  refuse : AuthPlan

unfoldable pub reply_accepts : Phase → ℕ → Bool
reply_accepts body code = code == 250
reply_accepts phase code = false

-- `smtp_phase_code`
unfoldable pub phase_code : Phase → ℕ
phase_code disconnected = 0
phase_code connecting = 1
phase_code greet = 2
phase_code ehlo = 3
phase_code mail_from = 4
phase_code rcpt_to = 5
phase_code data_phase = 6
phase_code body = 7
phase_code quit = 8
phase_code done = 9
phase_code failed = 10
phase_code auth = 11

-- What an answered EHLO leads to.
unfoldable pub after_ehlo : AuthPlan → Cmd × Phase
after_ehlo no_auth = (send_mail_from, mail_from)
after_ehlo plain = (send_auth, auth)
after_ehlo refuse = (fail, failed)

-- The arms of `smtp_on_reply`; each falls through to the last when its code differs.
unfoldable pub on_reply : Phase → ℕ → AuthPlan → Cmd × Phase
unfolding after_ehlo
on_reply greet code creds = if code == 220 then (send_ehlo, ehlo) else (fail, failed)
on_reply ehlo code creds = if code == 250 then after_ehlo creds else (fail, failed)
on_reply auth code creds = if code == 235 then (send_mail_from, mail_from) else (fail, failed)
on_reply mail_from code creds = if code == 250 then (send_rcpt_to, rcpt_to) else (fail, failed)
on_reply rcpt_to code creds = if code == 250 then (send_data, data_phase) else (fail, failed)
on_reply data_phase code creds = if code == 354 then (send_body, body) else (fail, failed)
on_reply body code creds = if code == 250 then (send_quit, quit) else (fail, failed)
on_reply quit code creds = if code == 221 then (complete, done) else (fail, failed)
on_reply phase code creds = (fail, failed)

-- The first CRLF at or behind index `i`.
unfoldable pub find_crlf : List ℕ → ℕ → Option ℕ
find_crlf [] i = none
find_crlf (a ∷ []) i = none
find_crlf (a ∷ b ∷ buf) i =
    let later = find_crlf (b ∷ buf) (i + 1) in if a == 13 && b == 10 then some i else later

abbrev pub is_digit : ℕ → Bool
is_digit d = leb 48 d && leb d 57

-- The code, whether the line is the last, and its length with the CRLF.
unfoldable pub reply_line : List ℕ → Option (ℕ × Bool × ℕ)
reply_line buf = do
  crlf ← find_crlf buf 0
  let at = λ (i : ℕ). get_or buf i 0 in
      if ltb crlf 3
      then none
      else if not (is_digit (at 0)) || (not (is_digit (at 1)) || not (is_digit (at 2)))
      then none
      else some
          ((at 0 - 48) * 100 + (at 1 - 48) * 10 + (at 2 - 48), crlf == 3 || at 3 != 45, crlf + 2)

-- The span of the text in a reply line.
unfoldable pub reply_text : List ℕ → ℕ → Option (ℕ × ℕ)
reply_text buf line_len =
    if ltb (length buf) line_len
    then none
    else if ltb line_len 2
    then none
    else if leb (line_len - 2) 4
    then none
    else some (4, line_len - 2 - 4)
