-- ===== src/Alert/Channels.antt =====
-- `deliver_email` and `deliver_webhook` of scripts/alert-event.py, and the outbox over them.
use postfix_m365_relay.Base.{
  false, true, [], not, ◌&&◌, List, if◌then◌else◌, ℕ, Bool, Text, codes, leb, ltb,
}
use postfix_m365_relay.Smtp.Session.{Server, Transcript, submit, say, session, is_sent, sent}
use postfix_m365_relay.Credential.Owner.{is_empty}
use postfix_m365_relay.Alert.Outbox.{Channel, Courier, Payload, Attempt, email, webhook}

-- MAIL_ADMIN_EMAIL, MAIL_SEND_MAILBOX and RELAY_PORT as they are read, and MAIL_ALERT_WEBHOOK.
pub record Contacts : Type 0 where
  pub recipient : Text
  pub sender : Text
  pub port : ℕ
  pub target : Text

-- What the webhook answers: a status, or any exception of the request.
pub data Posting : Type 0 where
  responded : ℕ → Posting
  not_posted : Posting

-- The whole of `deliver_email`, with the conversation. `send_message` raises where it is refused; every
-- fault is an OSError or one of smtplib.
unfoldable pub deliver_email : Server → Contacts → Transcript → Bool × Transcript
deliver_email server contacts log =
    if is_empty contacts.recipient
    then (true, log)
    else (let talk =
          session server (codes "127.0.0.1") contacts.port
            (λ opened.
              say server (submit contacts.sender contacts.recipient) opened
                (λ _ later. (sent, later)))
            log in
        (is_sent server talk.0, talk.1))

unfoldable pub is_success : Posting → Bool
is_success (responded code) = leb 200 code && ltb code 300
is_success not_posted = false

unfoldable pub deliver_webhook : Contacts → Posting → Bool
deliver_webhook contacts posting = if is_empty contacts.target then true else is_success posting

-- The local Postfix, the webhook and the clock, each after the attempts that were made before.
pub record Network : Type 0 where
  pub server : List Attempt → Server
  pub post : Payload → List Attempt → Posting
  pub clock : List Attempt → ℕ

module _ (contacts : Contacts) (network : Network) where
  abbrev pub answer_of : Channel → Payload → List Attempt → Bool
  answer_of email payload audit = (deliver_email (network.server audit) contacts []).0
  answer_of webhook payload audit = deliver_webhook contacts (network.post payload audit)

  -- The courier of the outbox.
  abbrev pub courier_of : Courier
  courier_of = record {
    email_enabled = not (is_empty contacts.recipient);
    webhook_enabled = not (is_empty contacts.target);
    accepts = answer_of;
    clock = network.clock;
  }
