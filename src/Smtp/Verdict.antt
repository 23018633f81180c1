-- ===== src/Smtp/Verdict.antt =====
-- The verdict of scripts/qualify-relay.py, and when it sends a password.
use postfix_m365_relay.Smtp.Session.{
  start_tls, hello, recipients_refused, sender_refused, data_error, auth_error, sent, fault,
}
use postfix_m365_relay.Smtp.Qualify.{
  logged_in, is_truthy, expect_accepted, expect_rejected, expect_auth_rejected,
}
use postfix_m365_relay.Smtp.Talks.{From-session, From, From-say, From-if, From-expecting, From-end}
use postfix_m365_relay.Base.{
  ◌∙◌, ◌==◌, if◌then◌else◌, ◌&&◌, zero, arith, false, ◌≡◌, suc, true, Bool, refl, ℕ,
}
use postfix_m365_relay.Smtp.Qualify.{
  expect_auth_rejected, expect_rejected, is_valid, qualify_body, QualifyArguments, qualify, verdict,
  Expect,
}
use postfix_m365_relay.Smtp.Session.{
  data_error, status, sender_refused, recipients_refused, Exit, sent, session, fault, Transcript,
  exit_code, Ending, Server,
}
use postfix_m365_relay.Smtp.Secure.{has_tls, keeps_secrets}

-- Did the session end as was expected?
abbrev pub meets : Expect → Ending → Bool
meets expect_accepted sent = true
meets expect_rejected (fault recipients_refused) = true
meets expect_rejected (fault sender_refused) = true
meets expect_rejected (fault data_error) = true
meets expect_auth_rejected (fault auth_error) = true
meets _ _ = false

abbrev pub is_zero : ℕ → Bool
is_zero zero = true
is_zero (suc n) = false

pub verdict-meets :
    (e : Expect) (ending : Ending) → is_zero (exit_code (verdict e ending)) ≡ meets e ending
unfolding verdict
verdict-meets e ending = ground arith

-- The ending of the session that the arguments ask for.
abbrev pub qualified : Server → QualifyArguments → Transcript → Ending
qualified server args log = (session server args.host args.port (qualify_body server args) log).0

pub qualify-meets :
    (server : Server) (args : QualifyArguments) (log : Transcript)
    → is_zero (exit_code (qualify server args log).0)
      ≡ (is_valid args && meets args.expect (qualified server args log))
unfolding qualify
qualify-meets server args log = by_flag (is_valid args)
  where
    by_flag :
        (b : Bool)
        → let r : Exit × Transcript =
            (if b
              then (let talk = session server args.host args.port (qualify_body server args) log in
                  (verdict args.expect talk.0, talk.1))
              else (status 2, log)) in
          is_zero (exit_code r.0) ≡ (b && meets args.expect (qualified server args log))
    by_flag true = verdict-meets args.expect _
    by_flag false = refl

abbrev Secretive : Transcript → Type 0
Secretive log = keeps_secrets log ≡ true

abbrev Covered : QualifyArguments → Transcript → Type 0
Covered args log = Secretive log × (is_truthy args.username ≡ true → has_tls log ≡ true)

covered_call :
    (log : Transcript)
    → keeps_secrets log ≡ true
    → has_tls log ≡ true
    → (has_tls log && keeps_secrets log) ≡ true
covered_call log h k = simp (h, k) refl

module _ (server : Server) (args : QualifyArguments) where
  logged_in-Secretive : From (Covered args) (logged_in server args) Secretive
  unfolding logged_in
  logged_in-Secretive =
      From-if server (is_truthy args.username)
        (λ named.
          From-say server {R = λ code log. Secretive log} _
            (λ f log h. covered_call log h.0 (h.1 named))
            (λ code log h. covered_call log h.0 (h.1 named))
            λ code.
              From-say server {R = λ c log. Secretive log} _ (λ f log h. h) (λ c log h. h)
                λ c. From-end server sent (λ log h. h))
        (λ anonymous.
          From-say server {R = λ code log. Secretive log} _ (λ f log h. h.0) (λ code log h. h.0)
            λ c. From-end server sent (λ log h. h))

  named_needs_tls :
      is_valid args ≡ true → args.starttls ≡ false → is_truthy args.username ≡ true → ⊥
  unfolding is_valid
  named_needs_tls h k named = ground arith

  qualify_body-Secretive :
      is_valid args ≡ true → From Secretive (qualify_body server args) Secretive
  unfolding qualify_body
  qualify_body-Secretive valid =
      From-say server {R = λ code log. Secretive log} hello (λ f log h. h) (λ code log h. h)
        λ hi.
          From-if server args.starttls
            (λ tls.
              From-say server {R = λ code log. Secretive log × (has_tls log ≡ (code == 220))}
                start_tls (λ f log h. h) (λ code log h. (h, refl))
                λ code.
                  From-expecting server 220 code (λ log h. h.0)
                    λ e.
                      From-say server {R = λ again log. Covered args log} hello (λ f log h. h.0)
                        (λ again log h. (h.0, λ named. h.1 ∙ e)) λ again. logged_in-Secretive)
            (λ plain. record {
              run = λ log h.
                  logged_in-Secretive.run log
                    (h, λ named. absurd (named_needs_tls valid plain named));
            })

-- The client sends a password inside of TLS only, whatever its arguments are.
pub qualify-Secretive :
    (server : Server) (args : QualifyArguments) (log : Transcript)
    → keeps_secrets log ≡ true
    → keeps_secrets (qualify server args log).1 ≡ true
unfolding qualify
qualify-Secretive server args log h = by_flag (is_valid args) refl
  where
    by_flag :
        (b : Bool)
        → is_valid args ≡ b
        → let r : Exit × Transcript =
            (if b
              then (let talk = session server args.host args.port (qualify_body server args) log in
                  (verdict args.expect talk.0, talk.1))
              else (status 2, log)) in
          keeps_secrets r.1 ≡ true
    by_flag true valid =
        (From-session server args.host args.port (qualify_body server args) (λ r l k. k)
            (λ r l k. k) (qualify_body-Secretive server args valid)).run
          log h
    by_flag false valid = h
