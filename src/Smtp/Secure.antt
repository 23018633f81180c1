-- ===== src/Smtp/Secure.antt =====
-- What the clients send, and in which order.
use postfix_m365_relay.Smtp.Talks.{From-session, From-say, From-if, From-expecting, From-end}
use postfix_m365_relay.Base.{
  none, inr, inl, some, ◌⊎◌, Option, List, ◌∙◌, if◌then◌else◌, [], ◌∷◌, ◌&&◌, true, Text, ◌==◌,
  false, ◌≡◌, Bool, refl, ℕ,
}
use postfix_m365_relay.Smtp.Session.{
  status, Exit, xoauth2_token, send_proof, sent, SmtpCall, start_tls, hello, failed, login,
  submitted, auth, answered, connect, submit, session, xoauth2_body, Talk, Server, Reply,
  Transcript,
}
use postfix_m365_relay.Smtp.Probe.{
  smtp_host, names, caught, access_token, next_name, TokenAnswer, send_one, ProbeArguments,
  send_all, with_token, with_files, probe,
}
use postfix_m365_relay.Smtp.Talks.{From}

abbrev pub is_code : ℕ → Reply → Bool
is_code wanted (answered code) = code == wanted
is_code wanted (failed f) = false

-- Is the connection that was opened last inside of TLS, and has it been authorised by code 235?
abbrev pub tls_after : SmtpCall → Reply → Bool → Bool
tls_after (connect host port) reply before = false
tls_after start_tls reply before = is_code 220 reply
tls_after _ reply before = before

abbrev pub has_tls : Transcript → Bool
has_tls [] = false
has_tls (step ∷ log) = tls_after step.call step.reply (has_tls log)

abbrev pub authorised_after : SmtpCall → Reply → Bool → Bool
authorised_after (connect host port) reply before = false
authorised_after (auth initial) reply before = is_code 235 reply
authorised_after _ reply before = before

abbrev pub is_authorised : Transcript → Bool
is_authorised [] = false
is_authorised (step ∷ log) = authorised_after step.call step.reply (is_authorised log)

-- Credentials are sent inside of TLS only.
abbrev pub may_call : SmtpCall → Transcript → Bool
may_call (auth initial) log = has_tls log
may_call (login name password) log = has_tls log
may_call _ log = true

abbrev pub keeps_secrets : Transcript → Bool
keeps_secrets [] = true
keeps_secrets (step ∷ log) = may_call step.call log && keeps_secrets log

-- And a message inside of TLS and after code 235 only.
abbrev pub may_submit : SmtpCall → Transcript → Bool
may_submit (submit sender recipient) log = has_tls log && is_authorised log
may_submit _ log = true

abbrev pub asks_first : Transcript → Bool
asks_first [] = true
asks_first (step ∷ log) = may_submit step.call log && asks_first log

abbrev pub IsSecure : Transcript → Type 0
IsSecure log = (keeps_secrets log ≡ true) × (asks_first log ≡ true)

abbrev InTls : Transcript → Type 0
InTls log = IsSecure log × (has_tls log ≡ true)

abbrev Authorised : Transcript → Type 0
Authorised log = IsSecure log × (has_tls log ≡ true) × (is_authorised log ≡ true)

-- What the two conditions say of the next call.
allowed :
    (log : Transcript)
    → has_tls log ≡ true
    → is_authorised log ≡ true
    → asks_first log ≡ true
    → (has_tls log && is_authorised log && asks_first log) ≡ true
allowed log h k l = simp (h, k) l

secret :
    (log : Transcript)
    → InTls log
    → ((has_tls log && keeps_secrets log) ≡ true) × (asks_first log ≡ true)
secret log h = (simp h.1 h.0.0, h.0.1)

module _ (server : Server) where
  submitted-IsSecure :
      (sender recipient : Text) (code : ℕ)
      → From
          (λ log. InTls log × (is_authorised log ≡ (code == 235)))
          (submitted server (submit sender recipient) code)
          IsSecure
  unfolding submitted
  submitted-IsSecure sender recipient code =
      From-if server (code == 235)
        (λ e.
          From-say server {R = λ c log. IsSecure log} (submit sender recipient)
            (λ f log h. (h.0.0.0, allowed log h.0.1 (h.1 ∙ e) h.0.0.1))
            (λ c log h. (h.0.0.0, allowed log h.0.1 (h.1 ∙ e) h.0.0.1))
            λ c. From-end server sent (λ log h. h))
        (λ e. From-end server _ (λ log h. h.0.0))

  xoauth2_body-IsSecure :
      (initial sender recipient : Text)
      → From IsSecure (xoauth2_body server initial (submit sender recipient)) IsSecure
  unfolding xoauth2_body
  xoauth2_body-IsSecure initial sender recipient =
      From-say server {R = λ c log. IsSecure log} hello (λ f log h. h) (λ c log h. h)
        λ c.
          From-say server {R = λ code log. IsSecure log × (has_tls log ≡ (code == 220))} start_tls
            (λ f log h. h) (λ code log h. (h, refl))
            λ code.
              From-expecting server 220 code (λ log h. h.0)
                λ e.
                  From-say server {R = λ again log. InTls log} hello (λ f log h. h.0)
                    (λ again log h. (h.0, h.1 ∙ e))
                    λ again.
                      From-say server
                        {R = λ answer log. InTls log × (is_authorised log ≡ (answer == 235))}
                        (auth initial) (λ f log h. secret log h)
                        (λ answer log h. ((secret log h, h.1), refl))
                        λ answer. submitted-IsSecure sender recipient answer

  xoauth2_session-IsSecure :
      (host : Text) (port : ℕ) (initial sender recipient : Text)
      → From IsSecure
          (session server host port (xoauth2_body server initial (submit sender recipient)))
          IsSecure
  xoauth2_session-IsSecure host port initial sender recipient =
      From-session server host port _ (λ r log h. h) (λ r log h. h)
        (xoauth2_body-IsSecure initial sender recipient)

  send_all-IsSecure :
      (mailbox token sender recipient : Text) (all_names : List Text) (total : ℕ) (log : Transcript)
      → IsSecure log
      → IsSecure (send_all server mailbox token sender recipient all_names total log).1
  unfolding send_all send_one
  send_all-IsSecure mailbox token sender recipient [] total log h = h
  send_all-IsSecure mailbox token sender recipient (name ∷ others) total log h =
      by_first
        (session server smtp_host 587
          (xoauth2_body server (xoauth2_token mailbox token) (submit sender recipient)) log)
        ((xoauth2_session-IsSecure smtp_host 587 (xoauth2_token mailbox token) sender recipient).run
          log h)
        λ more later k. send_all-IsSecure mailbox token sender recipient others more later k
    where
      by_next :
          (first : Option Bool) (later : Transcript)
          → IsSecure later
          → ((more : ℕ) (l : Transcript)
              → IsSecure l
              → IsSecure (send_all server mailbox token sender recipient others more l).1)
          → IsSecure
              (next_name server
                (first, later)
                total
                (λ more l. send_all server mailbox token sender recipient others more l)).1
      by_next none later h rest = h
      by_next (some done) later h rest = rest _ later h

      by_first :
          (talk : Talk)
          → IsSecure talk.1
          → ((more : ℕ) (l : Transcript)
              → IsSecure l
              → IsSecure (send_all server mailbox token sender recipient others more l).1)
          → IsSecure
              (next_name server
                (caught talk.0, talk.1)
                total
                (λ more l. send_all server mailbox token sender recipient others more l)).1
      by_first talk h rest = by_next (caught talk.0) talk.1 h rest

-- The proof message of a rotation: whatever the server answers, the bearer token is sent inside of TLS
-- only, and the message inside of TLS and after an AUTH that was answered with 235 only. So it was in
-- the conversation before.
pub send_proof-IsSecure :
    (server : Server) (host : Text) (port : ℕ) (mailbox bearer recipient : Text) (log : Transcript)
    → IsSecure log
    → IsSecure (send_proof server host port mailbox bearer recipient log).1
unfolding send_proof
send_proof-IsSecure server host port mailbox bearer recipient log h =
    (xoauth2_session-IsSecure server host port (xoauth2_token mailbox bearer) mailbox recipient).run
      log h

with_token-IsSecure :
    (server : Server) (args : ProbeArguments) (t : Exit ⊎ Text) (log : Transcript)
    → IsSecure log
    → IsSecure (with_token server args t log).1
unfolding with_token
with_token-IsSecure server args (inl e) log h = h
with_token-IsSecure server args (inr token) log h =
    send_all-IsSecure server args.mailbox token args.sender args.recipient (names server) 0 log h

with_files-IsSecure :
    (server : Server) (args : ProbeArguments) (answer : TokenAnswer) (log : Transcript)
    (key cert : Option Text)
    → IsSecure log
    → IsSecure (with_files server args answer key cert log).1
unfolding with_files
with_files-IsSecure server args answer log none cert h = h
with_files-IsSecure server args answer log (some key) none h = h
with_files-IsSecure server args answer log (some key) (some cert) h =
    with_token-IsSecure server args (access_token answer) log h

-- The probe, over both of its messages, sends the bearer token inside of TLS only and each message only
-- after code 235 in the connection that it goes through. On a dry run it opens no connection.
pub probe-IsSecure :
    (server : Server) (args : ProbeArguments) (answer : TokenAnswer) (log : Transcript)
    → IsSecure log
    → IsSecure (probe server args answer log).1
      × (args.dry_run ≡ true → (probe server args answer log).1 ≡ log)
unfolding probe
probe-IsSecure server args answer log h = by_flag args.dry_run
  where
    by_flag :
        (b : Bool)
        → let r : Exit × Transcript =
            (if b
              then (status 0, log)
              else with_files server args answer args.key_file args.cert_file log) in
          IsSecure r.1 × (b ≡ true → r.1 ≡ log)
    by_flag true = (h, λ _. refl)
    by_flag false = (
      with_files-IsSecure server args answer log args.key_file args.cert_file h,
      λ e. absurd (cc e),
    )
