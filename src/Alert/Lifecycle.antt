-- ===== src/Alert/Lifecycle.antt =====
-- `main` of scripts/alert-event.py: repeated observations of an incident, and the exit status.
use postfix_m365_relay.Base.{
  ap, ◌∙◌, length, ◌+◌, suc, ltb, not, [], ◌||◌, if◌then◌else◌, arith, ◌&&◌, ◌∷◌, none, Option, all,
  Bool, List, true, same_refl, false, some, ◌≡◌, Text, refl, ℕ,
}
use postfix_m365_relay.Alert.Outbox.{
  deliver, settle, webhook, email, Tried, retry_file, remaining, Notice, Attempt, Channel, Delivery,
  attempt_outbox, Payload, attempt_channel, File, retry_outbox, Retried, Courier,
}
use postfix_m365_relay.Alert.Incident.{
  stamp_of, place_left, notify, recover, new_notice, on_recover, Command, queue_notification,
  repeated, open_incident, Incident, on_open, on_command, Store, run_command,
}

-- The reports of an event that a run could make.
abbrev retried : Courier → ℕ → Store → Retried
retried courier now store = retry_outbox courier store.outbox store.audit

run_command-repeats :
    (courier : Courier) (now : ℕ) (id severity event : Text) (incident : Incident) (store : Store)
    → store.incidents event ≡ some incident
    → let after = (run_command courier now id (open_incident severity event) store).1 in
      (after.outbox ≡ (retried courier now store).files)
      × (after.audit ≡ (retried courier now store).audit)
      × (after.incidents event ≡ some (repeated now incident))
unfolding run_command on_command on_open
run_command-repeats courier now id severity event incident store h =
    rw h (refl, refl, rw (same_refl event) refl)

-- One run of `open` for an event: what it finds, and its arguments.
pub record Opening : Type 0 where
  pub courier : Courier
  pub now : ℕ
  pub id : Text
  pub severity : Text

-- Such runs one after the other; and the retries alone.
abbrev pub opens : Text → List Opening → Store → Store
opens event [] store = store
opens event (o ∷ openings) store =
    opens event openings (run_command o.courier o.now o.id (open_incident o.severity event) store).1

abbrev pub only_retries : List Opening → List File → List Attempt → List File × List Attempt
only_retries [] files audit = (files, audit)
only_retries (o ∷ openings) files audit =
    let r = retry_outbox o.courier files audit in only_retries openings r.files r.audit

-- The record of an incident with this reference, first observation, severity and count.
pub record IsRecord (store : Store) (event reference severity : Text) (first count : ℕ)
    : Type 0 where
  pub incident : Incident
  pub found : store.incidents event ≡ some incident
  pub its_reference : incident.reference_id ≡ reference
  pub its_severity : incident.severity ≡ severity
  pub its_first : incident.first_observed ≡ first
  pub its_count : incident.occurrence_count ≡ count

count_over : (m n : ℕ) → suc m + n ≡ m + suc n
count_over m n = omega arith

-- While an incident is recorded, any number of runs of `open` for its event report nothing: the outbox and
-- the audit are those that the retries alone leave. The record keeps its reference, its severity and the
-- time of its first observation and counts one occurrence more for each run.
pub run_command-suppressed :
    (event : Text) (openings : List Opening) (incident : Incident) (store : Store)
    → store.incidents event ≡ some incident
    → let after = opens event openings store in
      let left = only_retries openings store.outbox store.audit in
      (after.outbox ≡ left.0)
      × (after.audit ≡ left.1)
      × IsRecord after event incident.reference_id incident.severity incident.first_observed
          (incident.occurrence_count + length openings)
run_command-suppressed event [] incident store h = (
  refl,
  refl,
  record {
    incident = incident;
    found = h;
    its_reference = refl;
    its_severity = refl;
    its_first = refl;
    its_count = omega arith;
  },
)
run_command-suppressed event (o ∷ openings) incident store h =
    let once = run_command-repeats o.courier o.now o.id o.severity event incident store h in
    let after = (run_command o.courier o.now o.id (open_incident o.severity event) store).1 in
    let left = retried o.courier o.now store in
    let others = run_command-suppressed event openings (repeated o.now incident) after once.2 in
    let known = others.2 in
    (
      others.0
          ∙ (ap (λ f. (only_retries openings f after.audit).0) once.0
              ∙ ap (λ a. (only_retries openings left.files a).0) once.1),
      others.1
          ∙ (ap (λ f. (only_retries openings f after.audit).1) once.0
              ∙ ap (λ a. (only_retries openings left.files a).1) once.1),
      record {
        incident = known.incident;
        found = known.found;
        its_reference = known.its_reference;
        its_severity = known.its_severity;
        its_first = known.its_first;
        its_count = known.its_count ∙ count_over incident.occurrence_count (length openings);
      },
    )

-- An entry of the outbox that cannot be read: it is skipped, and stays.
abbrev pub is_unreadable : File → Bool
is_unreadable file = elim file.content [ none ↦ true | some notice ↦ false ]

module _ (courier : Courier) (now : ℕ) where
  succeeded_done :
      (c : Channel) (payload : Payload) (d : Delivery) (audit : List Attempt)
      → (attempt_channel courier now c payload d audit).succeeded ≡ true
      → (attempt_channel courier now c payload d audit).delivery.pending ≡ false
  unfolding attempt_channel
  succeeded_done c payload d audit =
      by_flags d.pending (ltb now d.next_attempt) (deliver courier c payload audit) refl
    where
      by_flags :
          (p b a : Bool)
          → d.pending ≡ p
          → let t : Tried =
              (if not p
                then record { delivery = d; succeeded = true; audit = audit }
                else if b
                then record { delivery = d; succeeded = false; audit = audit }
                else settle courier now c payload d audit a) in
            t.succeeded ≡ true → t.delivery.pending ≡ false
      by_flags false b a p s = p
      by_flags true true a p s = absurd (cc)
      by_flags true false true p s = refl
      by_flags true false false p s = absurd (cc)

module _ (courier : Courier) (now : ℕ) where
  none_left :
      (payload : Payload) (e w : Delivery)
      → e.pending ≡ false
      → w.pending ≡ false
      → remaining payload e w ≡ none
  none_left payload e w h k =
      let both : (e.pending || w.pending) ≡ false = ground arith in rw both refl

  all_ok-left :
      (notice : Notice) (audit : List Attempt)
      → (attempt_outbox courier notice audit).all_ok ≡ true
      → (attempt_outbox courier notice audit).left ≡ none
  unfolding attempt_outbox
  all_ok-left notice audit h =
      let e =
        attempt_channel courier (courier.clock audit) email notice.payload notice.email_state
          audit in
      let w =
        attempt_channel courier (courier.clock audit) webhook notice.payload notice.webhook_state
          e.audit in
      none_left notice.payload e.delivery w.delivery
        (succeeded_done courier (courier.clock audit) email notice.payload notice.email_state audit
          (ground arith))
        (succeeded_done courier (courier.clock audit) webhook notice.payload notice.webhook_state
          e.audit (ground arith))

  abbrev AllRead : Retried → Type 0
  AllRead r = r.all_ok ≡ true → all is_unreadable r.files ≡ true

  file-AllRead :
      (file : File) (o : Option Notice) (audit : List Attempt) (others : List Attempt → Retried)
      → file.content ≡ o
      → ((later : List Attempt) → AllRead (others later))
      → AllRead (retry_file courier file o audit others)
  file-AllRead file none audit others e h ok = let rest = h audit ok in rw e rest
  file-AllRead file (some notice) audit others e h ok =
      let here = attempt_outbox courier notice audit in
      let rest = h here.audit (ground arith) in
      let gone = all_ok-left notice audit (ground arith) in rw gone rest

  retry_outbox-AllRead :
      (files : List File) (audit : List Attempt) → AllRead (retry_outbox courier files audit)
  unfolding retry_outbox
  retry_outbox-AllRead [] audit h = refl
  retry_outbox-AllRead (file ∷ files) audit h =
      file-AllRead file file.content audit (λ later. retry_outbox courier files later) refl
        (λ later. retry_outbox-AllRead files later) h

  -- The exit status is 0 only over an empty outbox.
  abbrev IsClean : Bool × Store → Type 0
  IsClean r = r.0 ≡ true → all is_unreadable r.1.outbox ≡ true

  queue_notification-IsClean :
      (payload : Payload) (ok : Bool) (store : Store)
      → (ok ≡ true → all is_unreadable store.outbox ≡ true)
      → IsClean (queue_notification courier now payload ok store)
  unfolding queue_notification
  queue_notification-IsClean payload ok store h =
      by_flag (not courier.email_enabled && not courier.webhook_enabled)
    where
      queued :
          let tried = attempt_outbox courier (new_notice courier payload) store.audit in
          (tried.all_ok && ok) ≡ true
          → all is_unreadable (place_left (stamp_of now) tried.left store.outbox) ≡ true
      queued both =
          let gone = all_ok-left (new_notice courier payload) store.audit (ground arith) in
          rw gone (h (ground arith))

      by_flag :
          (b : Bool)
          → let tried = attempt_outbox courier (new_notice courier payload) store.audit in
            let r : Bool × Store =
              (if b then (ok, store) else (
                tried.all_ok && ok,
                record store {
                  outbox = place_left (stamp_of now) tried.left store.outbox;
                  audit = tried.audit;
                },
              )) in
            IsClean r
      by_flag true = h
      by_flag false = queued

  on_command-IsClean :
      (id : Text) (command : Command) (ok : Bool) (store : Store)
      → (ok ≡ true → all is_unreadable store.outbox ≡ true)
      → IsClean (on_command courier now id command ok store)
  unfolding on_command on_open on_recover
  on_command-IsClean id (open_incident severity event) ok store h =
      by_incident (store.incidents event)
    where
      by_incident :
          (o : Option Incident) → IsClean (on_open courier now id severity event o ok store)
      by_incident none = queue_notification-IsClean _ ok _ h
      by_incident (some incident) = h
  on_command-IsClean id (recover event) ok store h = by_incident (store.incidents event)
    where
      by_incident : (o : Option Incident) → IsClean (on_recover courier now event o ok store)
      by_incident none = h
      by_incident (some incident) = queue_notification-IsClean _ ok _ h
  on_command-IsClean id (notify severity event) ok store h = queue_notification-IsClean _ ok store h

-- An exit status of 0 means that nothing is left to deliver: every file that is still in the outbox is one
-- that cannot be read.
pub run_command-clean :
    (courier : Courier) (now : ℕ) (id : Text) (command : Command) (store : Store)
    → (run_command courier now id command store).0 ≡ true
    → all is_unreadable (run_command courier now id command store).1.outbox ≡ true
unfolding run_command
run_command-clean courier now id command store =
    on_command-IsClean courier now id command _ _
      (retry_outbox-AllRead courier now store.outbox store.audit)
