-- ===== src/Tests/AlertRuns.antt =====
-- Runs of alert-event.py, and witnesses of the theorems on them.
use postfix_m365_relay.Base.{
  List, ◌∷◌, arith, false, [], some, ◌≡◌, codes, none, true, ◌≤◌, all, Text, refl,
}
use postfix_m365_relay.Alert.Incident.{
  queue_notification, build_payload, fresh_incident, on_open, on_recover, on_command, put_incident,
  open_incident, recover, run_command, Command, Store,
}
use postfix_m365_relay.Alert.Outbox.{
  Payload, Delivery, Notice, postponed, deliver, attempt_channel, attempt_outbox, email,
  retry_outbox, backoff, webhook, Courier,
}
use postfix_m365_relay.Alert.Kept.{run_command-Left, LeftFrom}
use postfix_m365_relay.Alert.Abstract.{run_command-step, is_open}
use postfix_m365_relay.Alert.Lifecycle.{
  IsRecord, only_retries, Opening, opens, run_command-suppressed, run_command-clean, is_unreadable,
}
use postfix_m365_relay.Alert.Delivery.{is_channel}
use postfix_m365_relay.Alert.Backoff.{backoff-bounds}
use postfix_m365_relay.Alert.Apart.{attempt_outbox-apart, webhook_first, IsApart}
use postfix_m365_relay.Alert.Entry.{is_event_name, alert_main-AreNamed, alert_main, AreNamed}
use postfix_m365_relay.Alert.Channels.{
  courier_of, is_success, deliver_webhook, responded, Network, Contacts, deliver_email,
}
use postfix_m365_relay.Smtp.Session.{
  quit, other_fault, closed, say, failed, answered, session, connect, Reply, SmtpCall,
}
use postfix_m365_relay.Alert.Accepted.{attempt_channel-IsSettled, IsSettled}

-- Postfix accepts everything, and the webhook nothing.
abbrev half : Courier
half = record {
  email_enabled = true;
  webhook_enabled = true;
  accepts = λ c payload audit. is_channel email c;
  clock = λ audit. 1_000_000;
}

abbrev both : Courier
both = record half { accepts = λ c payload audit. true }

-- And the wait after the first failure is over.
abbrev late : Courier
late = record both { clock = λ audit. 40_000_000 }

abbrev empty_store : Store
empty_store = record { incidents = λ event. none; outbox = []; audit = [] }

abbrev relay_down : Command
relay_down = open_incident (codes "error") (codes "relay-health")

abbrev first_id : Text
first_id = codes "PMR-1"

-- The incident has been opened, and its notification waits for the webhook.
abbrev opened : Store
opened = record {
  incidents =
      put_incident (codes "relay-health")
        (some (fresh_incident 1_000_000 first_id (codes "error") (codes "relay-health")))
        (λ event. none);
  outbox =
      record {
        stamp = 1000;
        content = some (record {
          payload =
              build_payload
                (fresh_incident 1_000_000 first_id (codes "error") (codes "relay-health"))
                (codes "open") 1_000_000;
          email_state = record { pending = false; attempts = 0; next_attempt = 0 };
          webhook_state = record { pending = true; attempts = 1; next_attempt = 31_000_000 };
        });
      }
      ∷ [];
  audit =
      record { channel = webhook; reference = first_id; status = codes "open"; accepted = false }
      ∷ record { channel = email; reference = first_id; status = codes "open"; accepted = true }
      ∷ [];
}

first_run :
    ((run_command half 1_000_000 first_id relay_down empty_store).0 ≡ false)
    × ((run_command half 1_000_000 first_id relay_down empty_store).1.outbox ≡ opened.outbox)
    × ((run_command half 1_000_000 first_id relay_down empty_store).1.audit ≡ opened.audit)
unfolding run_command retry_outbox on_command on_open queue_notification attempt_outbox
    attempt_channel deliver postponed backoff
first_run = (refl, refl, refl)

run_command-Left_example :
    LeftFrom both 2_000_000 webhook
      (first_id, codes "open")
      opened.audit
      (run_command both 2_000_000 (codes "PMR-2") relay_down opened).1
run_command-Left_example =
    run_command-Left both 2_000_000 (codes "PMR-2") relay_down opened webhook
      (first_id, codes "open") refl

abbrev two_openings : List Opening
two_openings =
    record { courier = half; now = 2_000_000; id = codes "PMR-2"; severity = codes "error" }
    ∷ record { courier = late; now = 40_000_000; id = codes "PMR-3"; severity = codes "error" }
    ∷ []

run_command-suppressed_example :
    let after = opens (codes "relay-health") two_openings opened in
    let left = only_retries two_openings opened.outbox opened.audit in
    (after.outbox ≡ left.0)
    × (after.audit ≡ left.1)
    × IsRecord after (codes "relay-health") first_id (codes "error") 1_000_000 3
run_command-suppressed_example =
    run_command-suppressed (codes "relay-health") two_openings
      (fresh_incident 1_000_000 first_id (codes "error") (codes "relay-health")) opened refl

delivered_later :
    (run_command late 40_000_000 first_id (recover (codes "relay-health")) opened).0 ≡ true
unfolding run_command retry_outbox on_command on_recover queue_notification attempt_outbox
    attempt_channel deliver
delivered_later = refl

run_command-clean_example :
    all is_unreadable
      (run_command late 40_000_000 first_id (recover (codes "relay-health")) opened).1.outbox
    ≡ true
run_command-clean_example =
    run_command-clean late 40_000_000 first_id (recover (codes "relay-health")) opened
      delivered_later

run_command-step_example :
    is_open
      (run_command half 2_000_000 first_id (recover (codes "relay-health")) opened).1
      (codes "relay-health")
    ≡ false
run_command-step_example =
    run_command-step half 2_000_000 first_id (recover (codes "relay-health")) opened
      (codes "relay-health")

backoff-bounds_example :
    (30 ≤ backoff 2) × (backoff 2 ≤ backoff 5) × (backoff 5 ≤ 3600) × (backoff 10 ≡ 3600)
backoff-bounds_example = backoff-bounds 2 5 (omega arith)

-- `half` answers by the channel alone.
half-IsApart : IsApart half
half-IsApart channel payload one two = refl

attempt_outbox-apart_example :
    let notice : Notice = record {
      payload =
          build_payload
            (fresh_incident 1_000_000 first_id (codes "error") (codes "relay-health"))
            (codes "open")
            1_000_000;
      email_state = record { pending = true; attempts = 2; next_attempt = 0 };
      webhook_state = record { pending = true; attempts = 1; next_attempt = 0 };
    } in
    ((attempt_outbox half notice []).left ≡ (webhook_first half notice []).left)
    × ((attempt_outbox half notice []).all_ok ≡ (webhook_first half notice []).all_ok)
attempt_outbox-apart_example =
    attempt_outbox-apart half
      (record {
        payload =
            build_payload (fresh_incident 1_000_000 first_id (codes "error") (codes "relay-health"))
              (codes "open") 1_000_000;
        email_state = record { pending = true; attempts = 2; next_attempt = 0 };
        webhook_state = record { pending = true; attempts = 1; next_attempt = 0 };
      })
      [] half-IsApart

refused_name :
    alert_main half 1_000_000 first_id (recover (codes "../outbox/1000")) opened ≡ (1, opened)
unfolding alert_main is_event_name
refused_name = refl

empty_store-AreNamed : AreNamed half 1_000_000 empty_store
empty_store-AreNamed event h = absurd (cc h)

recorded_there :
    is_open (alert_main half 1_000_000 first_id relay_down empty_store).1 (codes "relay-health")
    ≡ true
unfolding alert_main is_event_name run_command retry_outbox on_command on_open queue_notification
    attempt_outbox attempt_channel deliver postponed backoff
recorded_there = refl

alert_main-AreNamed_example : is_event_name (codes "relay-health") ≡ true
alert_main-AreNamed_example =
    alert_main-AreNamed half 1_000_000 first_id relay_down empty_store empty_store-AreNamed
      (codes "relay-health") recorded_there

abbrev contacts : Contacts
contacts = record {
  recipient = codes "admin@example.org";
  sender = codes "relay@example.org";
  port = 2525;
  target = codes "https://hook";
}

-- Postfix accepts a message but not the QUIT, and the webhook answers with an error.
abbrev postfix_reply : SmtpCall → Reply
postfix_reply (connect host port) = answered 220
postfix_reply quit = failed other_fault
postfix_reply _ = answered 250

abbrev network : Network
network = record {
  server = λ audit call log. postfix_reply call;
  post = λ payload audit. responded 503;
  clock = λ audit. 1_000_000;
}

abbrev waiting : Delivery
waiting = record { pending = true; attempts = 0; next_attempt = 0 }

abbrev outage : Payload
outage =
    build_payload (fresh_incident 1_000_000 first_id (codes "error") (codes "relay-health"))
      (codes "open") 1_000_000

one_settled :
    ((attempt_channel
        (courier_of contacts network)
        1_000_000
        email
        outage
        waiting
        []).delivery.pending
      ≡ false)
    × ((attempt_channel
          (courier_of contacts network)
          1_000_000
          webhook
          outage
          waiting
          []).delivery.pending
        ≡ true)
unfolding attempt_channel deliver deliver_email deliver_webhook is_success session say closed
    postponed backoff
one_settled = (refl, refl)

attempt_channel-IsSettled_example : IsSettled contacts network outage [] email
attempt_channel-IsSettled_example =
    attempt_channel-IsSettled contacts network 1_000_000 email outage waiting [] refl one_settled.0
