-- ===== src/Smtp/Shown.antt =====
-- What the conversation of scripts/qualify-relay.py shows where the client reports success.
use postfix_m365_relay.Base.{
  ap, ◌∙◌, sym, if◌then◌else◌, same_refl, refl, ℕ, ◌≡◌, Bool, true, false, ◌&&◌, ◌||◌, ◌==◌, same,
  any, [], ◌∷◌, arith,
}
use postfix_m365_relay.Smtp.Session.{
  Server, Transcript, Talk, Ending, SmtpCall, SmtpFault, Reply, Step, Exit, submit, connect, hello,
  start_tls, login, quit, answered, failed, auth_error, recipients_refused, sender_refused,
  data_error, smtp_error, fault, sent, status, exit_code, on_reply, with_step, after_quit,
  expecting, say, closed, session,
}
use postfix_m365_relay.Smtp.Qualify.{
  Expect, expect_accepted, expect_rejected, expect_auth_rejected, QualifyArguments, is_valid,
  is_truthy, strip_ends, text_of, logged_in, qualify_body, qualify, verdict,
}
use postfix_m365_relay.Smtp.Verdict.{meets, is_zero, verdict-meets}
use postfix_m365_relay.Credential.Thumbprint.{or_empty}

abbrev is_message : QualifyArguments → SmtpCall → Bool
is_message args (submit sender recipient) = same sender args.sender && same recipient args.recipient
is_message args _ = false

abbrev is_taken : Reply → Bool
is_taken (answered code) = true
is_taken (failed f) = false

abbrev is_refusal : Reply → Bool
is_refusal (failed recipients_refused) = true
is_refusal (failed sender_refused) = true
is_refusal (failed data_error) = true
is_refusal _ = false

abbrev is_auth_refusal : Reply → Bool
is_auth_refusal (failed auth_error) = true
is_auth_refusal _ = false

-- The step that shows what was expected: the message from the sender to the recipient was accepted; the
-- recipient, the sender or the data was refused; or the login was.
abbrev pub shows : QualifyArguments → Expect → Step → Bool
shows args expect_accepted step = is_message args step.call && is_taken step.reply
shows args expect_rejected step = is_refusal step.reply
shows args expect_auth_rejected step = is_auth_refusal step.reply

module _ (server : Server) (args : QualifyArguments) where
  -- An ending as expected is shown by a step.
  abbrev IsShown : Talk → Type 0
  IsShown talk = (e : Expect) → meets e talk.0 ≡ true → any (shows args e) talk.1 ≡ true

  shown_fault :
      (call : SmtpCall) (f : SmtpFault) (e : Expect)
      → meets e (fault f) ≡ true
      → shows args e (record { call = call; reply = failed f }) ≡ true
  shown_fault call f e h = ground arith

  unexpected : (e : Expect) → meets e (fault smtp_error) ≡ false
  unexpected e = ground arith

  IsShown-on_reply :
      (call : SmtpCall) (log : Transcript) (next : ℕ → Transcript → Talk) (r : Reply)
      → ((code : ℕ) → IsShown (next code (with_step call (answered code) log)))
      → IsShown (on_reply call log next r)
  IsShown-on_reply call log next (answered code) h = h code
  IsShown-on_reply call log next (failed f) h =
      λ e m. let shown = shown_fault call f e m in rw shown refl

  IsShown-expecting :
      (code : ℕ) (next : Transcript → Talk) (log : Transcript)
      → IsShown (next log)
      → IsShown (expecting 220 next code log)
  IsShown-expecting code next log h = by_code (code == 220)
    where
      by_code : (b : Bool) → IsShown (if b then next log else (fault smtp_error, log))
      by_code true = h
      by_code false = λ e m. absurd (cc (unexpected e, m))

  later_step :
      (e : Expect) (step : Step) (log : Transcript)
      → any (shows args e) log ≡ true
      → any (shows args e) (step ∷ log) ≡ true
  later_step e step log h = by_flag (shows args e step)
    where
      by_flag : (b : Bool) → (b || any (shows args e) log) ≡ true
      by_flag true = refl
      by_flag false = h

  IsShown-after_quit :
      (ending : Ending) (log : Transcript) (r : Reply)
      → IsShown (ending, log)
      → IsShown (after_quit ending log r)
  IsShown-after_quit ending log (failed f) h = λ e m. later_step e _ log (h e m)
  IsShown-after_quit ending log (answered code) h = by_code (code == 221)
    where
      by_code :
          (b : Bool)
          → IsShown (if b then ending else fault smtp_error, with_step quit (answered code) log)
      by_code true = λ e m. later_step e _ log (h e m)
      by_code false = λ e m. absurd (cc (unexpected e, m))

  message-IsShown :
      (code : ℕ) (log : Transcript)
      → IsShown (sent, with_step (submit args.sender args.recipient) (answered code) log)
  message-IsShown code log expect_accepted m =
      let from = same_refl args.sender in let to = same_refl args.recipient in rw (from, to) refl
  message-IsShown code log expect_rejected m = absurd (cc m)
  message-IsShown code log expect_auth_rejected m = absurd (cc m)

  IsShown-logged_in : (log : Transcript) → IsShown (logged_in server args log)
  unfolding logged_in say
  IsShown-logged_in log = by_flag (is_truthy args.username)
    where
      message : SmtpCall
      message = submit args.sender args.recipient

      ask : Transcript → Talk
      ask later = on_reply message later (λ _ last. (sent, last)) (server message later)

      asked_shown : (later : Transcript) → IsShown (ask later)
      asked_shown later =
          IsShown-on_reply message later (λ _ last. (sent, last)) (server message later)
            (λ code. message-IsShown code later)

      entry : SmtpCall
      entry = login (or_empty args.username) (strip_ends (text_of args.password_file))

      by_flag :
          (b : Bool)
          → IsShown
              (if b then on_reply entry log (λ _ later. ask later) (server entry log) else ask log)
      by_flag true =
          IsShown-on_reply entry log (λ _ later. ask later) (server entry log)
            (λ code. asked_shown (with_step entry (answered code) log))
      by_flag false = asked_shown log

  abbrev with_tls : Transcript → Talk
  with_tls secured =
      on_reply hello secured (λ _ again. logged_in server args again) (server hello secured)

  abbrev greet : Bool → Transcript → Talk
  greet b greeted =
      if b
      then on_reply start_tls greeted (expecting 220 with_tls) (server start_tls greeted)
      else logged_in server args greeted

  IsShown-greet : (b : Bool) (greeted : Transcript) → IsShown (greet b greeted)
  IsShown-greet false greeted = IsShown-logged_in greeted
  IsShown-greet true greeted =
      IsShown-on_reply start_tls greeted (expecting 220 with_tls) (server start_tls greeted) λ code.
        let secured = with_step start_tls (answered code) greeted in
        IsShown-expecting code with_tls secured (
          IsShown-on_reply hello secured (λ _ again. logged_in server args again)
            (server hello secured)
            λ again. IsShown-logged_in (with_step hello (answered again) secured))

  IsShown-body : (log : Transcript) → IsShown (qualify_body server args log)
  unfolding qualify_body say
  IsShown-body log =
      IsShown-on_reply hello log (λ _ greeted. greet args.starttls greeted) (server hello log)
        λ code. IsShown-greet args.starttls (with_step hello (answered code) log)

  IsShown-session :
      (log : Transcript)
      → IsShown (session server args.host args.port (qualify_body server args) log)
  unfolding session say closed
  IsShown-session log =
      IsShown-on_reply (connect args.host args.port) log
        (expecting 220 (λ later. closed server (qualify_body server args later)))
        (server (connect args.host args.port) log)
        λ code.
          let opened = with_step (connect args.host args.port) (answered code) log in
          let talk = qualify_body server args opened in
          IsShown-expecting code (λ later. closed server (qualify_body server args later)) opened
            (IsShown-after_quit talk.0 talk.1 (server quit talk.1) (IsShown-body opened))

-- Status 0 is shown by the conversation: where acceptance was expected the message from the sender to the
-- recipient was submitted and accepted; where a rejection was expected, the recipient, the sender or the data
-- was refused; and where a refused login was expected, the login was refused.
pub qualify-shows :
    (server : Server) (args : QualifyArguments)
    → exit_code (qualify server args []).0 ≡ 0
    → any (shows args args.expect) (qualify server args []).1 ≡ true
unfolding qualify
qualify-shows server args = by_flag (is_valid args)
  where
    by_flag :
        (b : Bool)
        → let r : Exit × Transcript =
            (if b
              then (let talk = session server args.host args.port (qualify_body server args) [] in
                  (verdict args.expect talk.0, talk.1))
              else (status 2, [])) in
          exit_code r.0 ≡ 0 → any (shows args args.expect) r.1 ≡ true
    by_flag true z =
        IsShown-session server args [] args.expect
          (sym (verdict-meets args.expect _) ∙ ap (λ n. is_zero n) z)
    by_flag false z = absurd (cc z)
