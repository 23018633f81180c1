-- ===== src/Alert/Accepted.antt =====
-- What was answered on a channel that has become settled.
use postfix_m365_relay.Base.{
  any, ◌==◌, not, same_iff, arith, if◌then◌else◌, [], codes, false, ◌≡◌, true, List, refl, ℕ, Bool,
  ◌&&◌, same, ◌≤◌, ltb,
}
use postfix_m365_relay.Smtp.Session.{
  with_step, expecting, connect, quit, smtp_error, fault, on_reply, after_quit, closed, Server,
  Transcript, Talk, Ending, SmtpCall, Reply, submit, answered, failed, say, session, is_sent, sent,
}
use postfix_m365_relay.Credential.Owner.{is_empty}
use postfix_m365_relay.Alert.Channels.{
  Contacts, Network, Posting, responded, deliver_email, deliver_webhook, is_success, courier_of,
  not_posted,
}
use postfix_m365_relay.Alert.Outbox.{
  Channel, Courier, Payload, Attempt, Delivery, email, webhook, attempt_channel, postponed, settle,
  deliver, Tried,
}

abbrev is_mail : Contacts → SmtpCall → Bool
is_mail contacts (submit sender recipient) =
    same sender contacts.sender && same recipient contacts.recipient
is_mail contacts _ = false

abbrev is_answer : Reply → Bool
is_answer (answered code) = true
is_answer (failed f) = false

-- Does the conversation have an accepted message from the sender to the recipient?
abbrev pub was_accepted : Contacts → Transcript → Bool
was_accepted contacts log = any (λ step. is_mail contacts step.call && is_answer step.reply) log

-- What has settled a channel.
pub data IsSettled (contacts : Contacts) (network : Network) (payload : Payload)
    (audit : List Attempt) : Channel → Type 0 where
  no_recipient : is_empty contacts.recipient ≡ true → IsSettled contacts network payload audit email
  mailed :
      was_accepted contacts (deliver_email (network.server audit) contacts []).1 ≡ true
      → IsSettled contacts network payload audit email
  no_target : is_empty contacts.target ≡ true → IsSettled contacts network payload audit webhook
  posted :
      {code : ℕ}
      → network.post payload audit ≡ responded code
      → 200 ≤ code
      → code ≤ 299
      → IsSettled contacts network payload audit webhook

module _ (contacts : Contacts) where
  -- A talk that ends with a sent message has an accepted one.
  abbrev IsTold : Server → Talk → Type 0
  IsTold server talk = is_sent server talk.0 ≡ true → was_accepted contacts talk.1 ≡ true

  IsTold-quit :
      (server : Server) (ending : Ending) (log : Transcript) (r : Reply)
      → IsTold server (ending, log)
      → IsTold server (after_quit ending log r)
  IsTold-quit server ending log (failed f) h = h
  IsTold-quit server ending log (answered code) h = by_code (code == 221) h
    where
      by_code :
          (b : Bool)
          → IsTold server (ending, log)
          → is_sent server (if b then ending else fault smtp_error) ≡ true
          → was_accepted contacts log ≡ true
      by_code true h e = h e
      by_code false h e = absurd (cc e)

  IsTold-submit :
      (server : Server) (log : Transcript) (r : Reply)
      → IsTold server
          (on_reply (submit contacts.sender contacts.recipient) log (λ _ later. (sent, later)) r)
  IsTold-submit server log (failed f) e = absurd (cc e)
  IsTold-submit server log (answered code) e =
      let from = (same_iff contacts.sender contacts.sender).1 refl in
      let to = (same_iff contacts.recipient contacts.recipient).1 refl in rw (from, to) refl

  IsTold-session :
      (server : Server) (log : Transcript)
      → IsTold server (
          session server
            (codes "127.0.0.1")
            contacts.port
            (λ opened.
              say server
                (submit contacts.sender contacts.recipient)
                opened
                (λ _ later. (sent, later)))
            log)
  unfolding session say closed
  IsTold-session server log = by_reply (server (connect (codes "127.0.0.1") contacts.port) log)
    where
      message : SmtpCall
      message = submit contacts.sender contacts.recipient

      ask : Transcript → Talk
      ask opened = on_reply message opened (λ _ later. (sent, later)) (server message opened)

      by_code :
          (b : Bool) (opened : Transcript)
          → IsTold server (if b then closed server (ask opened) else (fault smtp_error, opened))
      by_code false opened = λ e. absurd (cc e)
      by_code true opened =
          IsTold-quit server (ask opened).0 (ask opened).1 (server quit (ask opened).1)
            (IsTold-submit server opened (server message opened))

      by_reply :
          (r : Reply)
          → IsTold server (
              on_reply
                (connect (codes "127.0.0.1") contacts.port)
                log
                (expecting 220 (λ later. closed server (ask later)))
                r)
      by_reply (failed f) = λ e. absurd (cc e)
      by_reply (answered code) =
          by_code (code == 220)
            (with_step (connect (codes "127.0.0.1") contacts.port) (answered code) log)

  deliver_email-accepted :
      (server : Server) (log : Transcript)
      → is_empty contacts.recipient ≡ false
      → (deliver_email server contacts log).0 ≡ true
      → was_accepted contacts (deliver_email server contacts log).1 ≡ true
  unfolding deliver_email
  deliver_email-accepted server log h = by_flag (is_empty contacts.recipient) h
    where
      talk : Talk
      talk =
          session server (codes "127.0.0.1") contacts.port
            (λ opened.
              say server (submit contacts.sender contacts.recipient) opened
                (λ _ later. (sent, later)))
            log

      by_flag :
          (b : Bool)
          → b ≡ false
          → let r : Bool × Transcript =
              (if b then (true, log) else (is_sent server talk.0, talk.1)) in
            r.0 ≡ true → was_accepted contacts r.1 ≡ true
      by_flag true e = λ told. absurd (cc e)
      by_flag false e = IsTold-session server log

module _ (contacts : Contacts) (network : Network) (payload : Payload) (audit : List Attempt) where
  by_email :
      (b : Bool)
      → is_empty contacts.recipient ≡ b
      → (if not b then (deliver_email (network.server audit) contacts []).0 else true) ≡ true
      → IsSettled contacts network payload audit email
  by_email true e h = no_recipient e
  by_email false e h = mailed (deliver_email-accepted contacts (network.server audit) [] e h)

  by_posting :
      (p : Posting)
      → network.post payload audit ≡ p
      → is_success p ≡ true
      → IsSettled contacts network payload audit webhook
  unfolding is_success
  by_posting (responded code) e h = posted e (ground arith) (ground arith)
  by_posting not_posted e h = absurd (cc h)

  by_webhook :
      (b : Bool)
      → is_empty contacts.target ≡ b
      → (if not b then (if b then true else is_success (network.post payload audit)) else true)
        ≡ true
      → IsSettled contacts network payload audit webhook
  by_webhook true e h = no_target e
  by_webhook false e h = by_posting (network.post payload audit) refl h

  deliver-settled :
      (c : Channel)
      → deliver (courier_of contacts network) c payload audit ≡ true
      → IsSettled contacts network payload audit c
  unfolding deliver deliver_webhook
  deliver-settled email h = by_email (is_empty contacts.recipient) refl h
  deliver-settled webhook h = by_webhook (is_empty contacts.target) refl h

module _ (courier : Courier) (now : ℕ) (c : Channel) (payload : Payload) (d : Delivery)
    (audit : List Attempt) where
  accepted_of :
      (p b accepted : Bool)
      → d.pending ≡ true
      → p ≡ true
      → let t : Tried =
          (if not p
            then record { delivery = d; succeeded = true; audit = audit }
            else if b
            then record { delivery = d; succeeded = false; audit = audit }
            else settle courier now c payload d audit accepted) in
        t.delivery.pending ≡ false → accepted ≡ true
  unfolding postponed
  accepted_of false b accepted h e k = absurd (cc e)
  accepted_of true true accepted h e k = absurd (cc (h, k))
  accepted_of true false true h e k = refl
  accepted_of true false false h e k = absurd (cc (h, k))

-- A notification stops waiting for a channel only when it was delivered there: Postfix accepted a message
-- from the mailbox to the administrator, or the webhook answered with a status from 200 to 299, or there is
-- no such recipient or target. The notification waited for the channel before the attempt.
pub attempt_channel-IsSettled :
    (contacts : Contacts) (network : Network) (now : ℕ) (c : Channel) (payload : Payload)
    (d : Delivery) (audit : List Attempt)
    → d.pending ≡ true
    → (attempt_channel (courier_of contacts network) now c payload d audit).delivery.pending ≡ false
    → IsSettled contacts network payload audit c
unfolding attempt_channel
attempt_channel-IsSettled contacts network now c payload d audit h k =
    deliver-settled contacts network payload audit c (
      accepted_of (courier_of contacts network) now c payload d audit d.pending
        (ltb now d.next_attempt) (deliver (courier_of contacts network) c payload audit) h h k)
