-- ===== src/Alert/Outbox.antt =====
-- `attempt_outbox`, `queue_notification` and `retry_outbox`. Times are microseconds since 1970. A payload
-- is its identifying fields; Report has the texts that are made from them.
use postfix_m365_relay.Base.{
  [], none, ltb, ◌-◌, ◌||◌, ◌&&◌, true, ◌∷◌, some, leb, ◌+◌, ◌^◌, not, Text, Bool, ◌*◌, suc, false,
  List, Option, if◌then◌else◌, ℕ,
}

pub data Channel : Type 0 where
  email webhook : Channel

pub record Payload : Type 0 where
  pub status : Text
  pub severity : Text
  pub event : Text
  pub reference_id : Text
  pub first_observed : ℕ
  pub observed : ℕ
  pub occurrence_count : ℕ

-- The three keys of a channel in a record of the outbox.
pub record Delivery : Type 0 where
  pub pending : Bool
  pub attempts : ℕ
  pub next_attempt : ℕ

pub record Notice : Type 0 where
  pub payload : Payload
  pub email_state : Delivery
  pub webhook_state : Delivery

-- A line of the audit: the channel, the reference and the status, and whether the attempt succeeded.
pub record Attempt : Type 0 where
  pub channel : Channel
  pub reference : Text
  pub status : Text
  pub accepted : Bool

-- What is configured (MAIL_ADMIN_EMAIL, MAIL_ALERT_WEBHOOK), and what the local Postfix and the webhook
-- answer, and the clock, each after the attempts that were made before.
pub record Courier : Type 0 where
  pub email_enabled : Bool
  pub webhook_enabled : Bool
  pub accepts : Channel → Payload → List Attempt → Bool
  pub clock : List Attempt → ℕ

abbrev pub second : ℕ
second = 1_000_000

abbrev pub min : ℕ → ℕ → ℕ
min m n = if leb m n then m else n

-- `min(3600, 30 * (2 ** min(attempts - 1, 7)))`, in seconds; `attempts` is one at least
unfoldable pub backoff : ℕ → ℕ
backoff attempts = min 3600 (30 * 2 ^ min (attempts - 1) 7)

abbrev pub is_enabled : Courier → Channel → Bool
is_enabled courier email = courier.email_enabled
is_enabled courier webhook = courier.webhook_enabled

-- `deliver_email` and `deliver_webhook`: a channel that is not configured reports success.
unfoldable pub deliver : Courier → Channel → Payload → List Attempt → Bool
deliver courier channel payload audit =
    if is_enabled courier channel then courier.accepts channel payload audit else true

abbrev pub delivered : Delivery → Delivery
delivered d = record d { pending = false }

unfoldable pub postponed : ℕ → Delivery → Delivery
postponed now d = record d {
  attempts = suc d.attempts;
  next_attempt = now + backoff (suc d.attempts) * second;
}

-- What one pass of the loop over the channels leaves.
pub record Tried : Type 0 where
  pub delivery : Delivery
  pub succeeded : Bool
  pub audit : List Attempt

-- What `attempt_outbox` leaves: the record that is written again, or none where it is removed.
pub record Attempted : Type 0 where
  pub left : Option Notice
  pub all_ok : Bool
  pub audit : List Attempt

abbrev pub remaining : Payload → Delivery → Delivery → Option Notice
remaining payload e w =
    if e.pending || w.pending
    then some (record { payload = payload; email_state = e; webhook_state = w })
    else none

-- The files of the outbox in the order of their names; the content of one that cannot be read is none.
pub record File : Type 0 where
  pub stamp : ℕ
  pub content : Option Notice

pub record Retried : Type 0 where
  pub files : List File
  pub all_ok : Bool
  pub audit : List Attempt

abbrev pub put_back : ℕ → Option Notice → List File → List File
put_back stamp none files = files
put_back stamp (some notice) files = record { stamp = stamp; content = some notice } ∷ files

module _ (courier : Courier) (now : ℕ) where
  abbrev pub settle : Channel → Payload → Delivery → List Attempt → Bool → Tried
  settle channel payload d audit accepted = record {
    delivery = if accepted then delivered d else postponed now d;
    succeeded = accepted;
    audit =
        record {
          channel = channel;
          reference = payload.reference_id;
          status = payload.status;
          accepted = accepted;
        }
        ∷ audit;
  }

  unfoldable pub attempt_channel : Channel → Payload → Delivery → List Attempt → Tried
  attempt_channel channel payload d audit =
      if not d.pending
      then record { delivery = d; succeeded = true; audit = audit }
      else if ltb now d.next_attempt
      then record { delivery = d; succeeded = false; audit = audit }
      else settle channel payload d audit (deliver courier channel payload audit)

module _ (courier : Courier) where
  unfoldable pub attempt_outbox : Notice → List Attempt → Attempted
  attempt_outbox notice audit =
      let now = courier.clock audit in
      let e = attempt_channel courier now email notice.payload notice.email_state audit in
      let w = attempt_channel courier now webhook notice.payload notice.webhook_state e.audit in
      record {
        left = remaining notice.payload e.delivery w.delivery;
        all_ok = e.succeeded && w.succeeded;
        audit = w.audit;
      }

  -- One file of the loop, and the rest of it from the audit that it leaves.
  abbrev pub retry_file : File → Option Notice → List Attempt → (List Attempt → Retried) → Retried
  retry_file file none audit others =
      let rest = others audit in
      record { files = file ∷ rest.files; all_ok = rest.all_ok; audit = rest.audit }
  retry_file file (some notice) audit others =
      let here = attempt_outbox notice audit in
      let rest = others here.audit in
      record {
        files = put_back file.stamp here.left rest.files;
        all_ok = here.all_ok && rest.all_ok;
        audit = rest.audit;
      }

  unfoldable pub retry_outbox : List File → List Attempt → Retried
  retry_outbox [] audit = record { files = []; all_ok = true; audit = audit }
  retry_outbox (file ∷ files) audit =
      retry_file file file.content audit (λ later. retry_outbox files later)
