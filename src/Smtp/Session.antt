-- ===== src/Smtp/Session.antt =====
-- A conversation with a mail server as `smtplib.SMTP` holds it, and the session of
-- `send_proof_message` and `send_one`.
use postfix_m365_relay.Base.{
  [], ◌++◌, false, ◌==◌, codes, true, Bool, ◌∷◌, List, Text, if◌then◌else◌, ℕ,
}
use postfix_m365_relay.Credential.Base64.{b64encode}

-- The calls of an `smtplib.SMTP`: the constructor, `ehlo`, `starttls`, `docmd("AUTH", "XOAUTH2 …")`,
-- `login`, `send_message`, and the QUIT of leaving the `with` block.
pub data SmtpCall : Type 0 where
  connect : Text → ℕ → SmtpCall
  hello start_tls quit : SmtpCall
  auth : Text → SmtpCall
  login : Text → Text → SmtpCall
  submit : Text → Text → SmtpCall

-- The exceptions that the clients tell apart: those of smtplib, and any other, such as an OSError of the
-- network.
pub data SmtpFault : Type 0 where
  auth_error recipients_refused sender_refused data_error smtp_error other_fault : SmtpFault

pub data Reply : Type 0 where
  answered : ℕ → Reply
  failed : SmtpFault → Reply

pub record Step : Type 0 where
  pub call : SmtpCall
  pub reply : Reply

-- Newest first.
abbrev pub Transcript : Type 0
Transcript = List Step

-- What the server, or the network, answers to a call after a transcript. `login` and `send_message`
-- answer with a code only where they succeed.
abbrev pub Server : Type 0
Server = SmtpCall → Transcript → Reply

pub data Ending : Type 0 where
  sent : Ending
  not_authorised : ℕ → Ending
  fault : SmtpFault → Ending

-- How a run ends: with a status, or with an exception that nothing catches.
pub data Exit : Type 0 where
  status : ℕ → Exit
  uncaught : Exit

abbrev pub exit_code : Exit → ℕ
exit_code (status n) = n
exit_code uncaught = 1

abbrev pub Talk : Type 0
Talk = Ending × Transcript

abbrev pub with_step : SmtpCall → Reply → Transcript → Transcript
with_step call reply log = record { call = call; reply = reply } ∷ log

abbrev pub on_reply : SmtpCall → Transcript → (ℕ → Transcript → Talk) → Reply → Talk
on_reply call log next (answered code) = next code (with_step call (answered code) log)
on_reply call log next (failed f) = (fault f, with_step call (failed f) log)

-- The constructor and `starttls` raise an SMTPException at any other code than 220.
abbrev pub expecting : ℕ → (Transcript → Talk) → ℕ → Transcript → Talk
expecting wanted next code log = if code == wanted then next log else (fault smtp_error, log)

-- Leaving the `with` block: QUIT is sent, an answer other than 221 raises, and a lost connection is
-- passed over.
abbrev pub after_quit : Ending → Transcript → Reply → Talk
after_quit ending log (answered code) =
    (if code == 221 then ending else fault smtp_error, with_step quit (answered code) log)
after_quit ending log (failed f) = (ending, with_step quit (failed f) log)

-- `f"user={mailbox}\x01auth=Bearer {token}\x01\x01"`
unfoldable pub initial_response : Text → Text → Text
initial_response mailbox token =
    codes "user=" ++ (mailbox ++ (1 ∷ (codes "auth=Bearer " ++ (token ++ (1 ∷ 1 ∷ [])))))

-- `base64.b64encode(…encode()).decode()`, of ASCII text
unfoldable pub xoauth2_token : Text → Text → Text
unfolding initial_response
xoauth2_token mailbox token = b64encode (initial_response mailbox token)

module _ (server : Server) where
  unfoldable pub say : SmtpCall → Transcript → (ℕ → Transcript → Talk) → Talk
  say call log next = on_reply call log next (server call log)

  unfoldable pub closed : Talk → Talk
  closed (ending, log) = after_quit ending log (server quit log)

  -- `with smtplib.SMTP(host, port) as server`
  unfoldable pub session : Text → ℕ → (Transcript → Talk) → Transcript → Talk
  unfolding say closed
  session host port body log =
      say (connect host port) log (expecting 220 (λ later. closed (body later)))

  unfoldable pub submitted : SmtpCall → ℕ → Transcript → Talk
  unfolding say
  submitted message code log =
      if code == 235 then say message log (λ _ later. (sent, later)) else (not_authorised code, log)

  -- The body that both clients have: the AUTH is sent inside of TLS, and the message after code 235.
  unfoldable pub xoauth2_body : Text → SmtpCall → Transcript → Talk
  unfolding submitted say
  xoauth2_body initial message log = say hello log λ _ greeted. say start_tls greeted (
      expecting 220
        λ secured. say hello secured λ _ again. say (auth initial) again (submitted message))

  abbrev pub is_sent : Ending → Bool
  is_sent sent = true
  is_sent _ = false

  -- `send_proof_message(mailbox, token, recipient, thumbprint, host, port)`; every exception is a message
  -- that was not sent.
  unfoldable pub send_proof : Text → ℕ → Text → Text → Text → Transcript → Bool × Transcript
  unfolding session xoauth2_body xoauth2_token
  send_proof host port mailbox bearer recipient log =
      let talk =
        session host port (xoauth2_body (xoauth2_token mailbox bearer) (submit mailbox recipient))
          log in
      (is_sent talk.0, talk.1)
