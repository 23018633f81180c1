-- ===== src/Alert/Incident.antt =====
-- `main` of scripts/alert-event.py: `open`, `recover` and `notify`, under its lock.
use postfix_m365_relay.Base.{
  [], ◌&&◌, ltb, none, ◌∷◌, same, not, some, codes, if◌then◌else◌, suc, List, ◌/◌, Text, Option,
  Bool, ℕ,
}
use postfix_m365_relay.Alert.Outbox.{
  attempt_outbox, Attempt, Notice, Delivery, Payload, retry_outbox, Courier, File,
}

pub record Incident : Type 0 where
  pub event : Text
  pub severity : Text
  pub reference_id : Text
  pub first_observed : ℕ
  pub last_observed : ℕ
  pub occurrence_count : ℕ

-- The state directory: the incident of each event, the outbox, and the audit, newest first.
pub record Store : Type 0 where
  pub incidents : Text → Option Incident
  pub outbox : List File
  pub audit : List Attempt

pub data Command : Type 0 where
  open_incident : Text → Text → Command
  recover : Text → Command
  notify : Text → Text → Command

abbrev pub put_incident : Text → Option Incident → (Text → Option Incident) → Text → Option Incident
put_incident event incident incidents other = if same other event then incident else incidents other

abbrev pub stamp_of : ℕ → ℕ
stamp_of now = now / 1000

-- The place of a new file, whose name begins with its time in milliseconds. Files of one millisecond are
-- told apart by the random reference in their names; their order is not modelled.
abbrev pub place : File → List File → List File
place file [] = file ∷ []
place file (f ∷ files) = if ltb file.stamp f.stamp then file ∷ f ∷ files else f ∷ place file files

abbrev pub place_left : ℕ → Option Notice → List File → List File
place_left stamp none files = files
place_left stamp (some notice) files = place (record { stamp = stamp; content = some notice }) files

abbrev pub as_delivery : Bool → Delivery
as_delivery enabled = record { pending = enabled; attempts = 0; next_attempt = 0 }

-- The record that `queue_notification` writes.
abbrev pub new_notice : Courier → Payload → Notice
new_notice courier payload = record {
  payload = payload;
  email_state = as_delivery courier.email_enabled;
  webhook_state = as_delivery courier.webhook_enabled;
}

abbrev pub build_payload : Incident → Text → ℕ → Payload
build_payload incident status now = record {
  status = status;
  severity = incident.severity;
  event = incident.event;
  reference_id = incident.reference_id;
  first_observed = incident.first_observed;
  observed = now;
  occurrence_count = incident.occurrence_count;
}

abbrev pub fresh_incident : ℕ → Text → Text → Text → Incident
fresh_incident now reference severity event = record {
  event = event;
  severity = severity;
  reference_id = reference;
  first_observed = now;
  last_observed = now;
  occurrence_count = 1;
}

abbrev pub repeated : ℕ → Incident → Incident
repeated now incident = record incident {
  occurrence_count = suc incident.occurrence_count;
  last_observed = now;
}

module _ (courier : Courier) (now : ℕ) where
  -- `queue_notification`, and the immediate attempt that follows it
  unfoldable pub queue_notification : Payload → Bool → Store → Bool × Store
  queue_notification payload ok store =
      if not courier.email_enabled && not courier.webhook_enabled
      then (ok, store)
      else let tried = attempt_outbox courier (new_notice courier payload) store.audit in
        (
          tried.all_ok && ok,
          record store {
            outbox = place_left (stamp_of now) tried.left store.outbox;
            audit = tried.audit;
          },
        )

  unfoldable pub on_open : Text → Text → Text → Option Incident → Bool → Store → Bool × Store
  on_open reference severity event (some incident) ok store = (
    ok,
    record store { incidents = put_incident event (some (repeated now incident)) store.incidents },
  )
  on_open reference severity event none ok store =
      let incident = fresh_incident now reference severity event in
      queue_notification (build_payload incident (codes "open") now) ok
        (record store { incidents = put_incident event (some incident) store.incidents })

  unfoldable pub on_recover : Text → Option Incident → Bool → Store → Bool × Store
  on_recover event none ok store = (ok, store)
  on_recover event (some incident) ok store =
      queue_notification (build_payload incident (codes "recovered") now) ok
        (record store { incidents = put_incident event none store.incidents })

  unfoldable pub on_command : Text → Command → Bool → Store → Bool × Store
  on_command reference (open_incident severity event) ok store =
      on_open reference severity event (store.incidents event) ok store
  on_command reference (recover event) ok store = on_recover event (store.incidents event) ok store
  on_command reference (notify severity event) ok store =
      queue_notification
        (build_payload (fresh_incident now reference severity event) (codes "notification") now) ok
        store

  -- One run: everything that is due is retried first. `reference` is the random identifier that a new
  -- incident gets. The result is whether the exit status is 0.
  unfoldable pub run_command : Text → Command → Store → Bool × Store
  unfolding on_command on_open on_recover queue_notification
  run_command reference command store =
      let retried = retry_outbox courier store.outbox store.audit in
      on_command reference command retried.all_ok
        (record store { outbox = retried.files; audit = retried.audit })
