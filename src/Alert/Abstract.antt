-- ===== src/Alert/Abstract.antt =====
-- The incidents as a set of events: what a run of each command does to it.
use postfix_m365_relay.Base.{
  ◌∙◌, codes, ap, same_iff, ◌&&◌, ◌||◌, true, not, same, arith, false, some, none, Bool, ◌≡◌, Text,
  Option, refl, ℕ,
}
use postfix_m365_relay.Alert.Outbox.{Payload, Courier}
use postfix_m365_relay.Alert.Incident.{
  repeated, build_payload, fresh_incident, on_recover, notify, recover, on_open, open_incident,
  put_incident, queue_notification, on_command, Incident, Store, Command, run_command,
}

abbrev pub is_recorded : Option Incident → Bool
is_recorded none = false
is_recorded (some incident) = true

-- Is there an open incident for the event?
abbrev pub is_open : Store → Text → Bool
is_open store event = is_recorded (store.incidents event)

-- The command as a step on a set of events, given by its test.
abbrev pub step : Command → (Text → Bool) → Text → Bool
step (open_incident severity event) opened other = same other event || opened other
step (recover event) opened other = not (same other event) && opened other
step (notify severity event) opened other = opened other

module _ (courier : Courier) (now : ℕ) where
  queue_notification-incidents :
      (payload : Payload) (ok : Bool) (store : Store)
      → (queue_notification courier now payload ok store).1.incidents ≡ store.incidents
  unfolding queue_notification
  queue_notification-incidents payload ok store = ground arith

opened_on :
    (event other : Text) (incident : Incident) (incidents : Text → Option Incident)
    → is_recorded (put_incident event (some incident) incidents other)
      ≡ (same other event || is_recorded (incidents other))
opened_on event other incident incidents = ground arith

closed_on :
    (event other : Text) (incidents : Text → Option Incident)
    → is_recorded (put_incident event none incidents other)
      ≡ (not (same other event) && is_recorded (incidents other))
closed_on event other incidents = ground arith

already_closed :
    (event other : Text) (incidents : Text → Option Incident)
    → incidents event ≡ none
    → is_recorded (incidents other) ≡ (not (same other event) && is_recorded (incidents other))
already_closed event other incidents h = by_event (same other event) refl
  where
    by_event :
        (b : Bool)
        → same other event ≡ b
        → is_recorded (incidents other) ≡ (not b && is_recorded (incidents other))
    by_event false e = refl
    by_event true e = let it = (same_iff other event).0 e in rw (it, h) refl

module _ (courier : Courier) (now : ℕ) (id severity e other : Text) (ok : Bool)
    (store : Store) where
  on_open-step :
      (o : Option Incident)
      → is_open (on_open courier now id severity e o ok store).1 other
        ≡ (same other e || is_open store other)
  unfolding on_open
  on_open-step none =
      let incident = fresh_incident now id severity e in
      let opened = record store { incidents = put_incident e (some incident) store.incidents } in
      ap (λ f. is_recorded (f other))
        (queue_notification-incidents courier now (build_payload incident (codes "open") now) ok
          opened)
      ∙ opened_on e other incident store.incidents
  on_open-step (some incident) = opened_on e other (repeated now incident) store.incidents

  on_recover-step :
      (o : Option Incident)
      → store.incidents e ≡ o
      → is_open (on_recover courier now e o ok store).1 other
        ≡ (not (same other e) && is_open store other)
  unfolding on_recover
  on_recover-step none h = already_closed e other store.incidents h
  on_recover-step (some incident) h =
      let closed = record store { incidents = put_incident e none store.incidents } in
      ap (λ f. is_recorded (f other))
        (queue_notification-incidents courier now (build_payload incident (codes "recovered") now)
          ok closed)
      ∙ closed_on e other store.incidents

-- Every command does to the set of open incidents what its name says, whatever is delivered: `open` adds
-- its event, `recover` removes it, and `notify` changes nothing.
pub run_command-step :
    (courier : Courier) (now : ℕ) (id : Text) (command : Command) (store : Store) (event : Text)
    → is_open (run_command courier now id command store).1 event
      ≡ step command (is_open store) event
unfolding run_command on_command
run_command-step courier now id (open_incident severity e) store event =
    on_open-step courier now id severity e event _ _ (store.incidents e)
run_command-step courier now id (recover e) store event =
    on_recover-step courier now id e e event _ _ (store.incidents e) refl
run_command-step courier now id (notify severity e) store event =
    ap (λ f. is_recorded (f event)) (queue_notification-incidents courier now _ _ _)
