-- ===== src/Alert/Kept.antt =====
-- `retry_outbox` and `main` of scripts/alert-event.py: what becomes of the notifications in the outbox.
use postfix_m365_relay.Base.{
  not, false, ◌&&◌, if◌then◌else◌, inr, none, [], inl, ◌<◌, ◌⊎◌, arith, ◌||◌, some, ◌∷◌, true, ◌≤◌,
  ◌≡◌, Bool, Option, List, Text, refl, ℕ,
}
use postfix_m365_relay.Alert.Outbox.{
  retry_file, put_back, attempt_outbox, Retried, Attempted, Attempt, File, Payload, retry_outbox,
  Notice, Channel, Courier,
}
use postfix_m365_relay.Alert.Incident.{
  run_command, notify, recover, new_notice, place, Incident, stamp_of, open_incident, on_recover,
  place_left, Store, on_open, Command, on_command, queue_notification,
}
use postfix_m365_relay.Alert.Delivery.{
  Title, attempt_outbox-Left, attempt_outbox-grows, successes, awaits, outbox_awaits,
}

module _ (courier : Courier) (now : ℕ) (c : Channel) (reference : Title) where
  abbrev LeftIn : List Attempt → Retried → Type 0
  LeftIn audit r =
      (outbox_awaits c reference r.files ≡ true)
      ⊎ (successes c reference audit < successes c reference r.audit)

  grows_file :
      (file : File) (o : Option Notice) (audit : List Attempt) (others : List Attempt → Retried)
      → ((later : List Attempt)
          → successes c reference later ≤ successes c reference (others later).audit)
      → successes c reference audit
        ≤ successes c reference (retry_file courier file o audit others).audit
  grows_file file none audit others h = h audit
  grows_file file (some notice) audit others h =
      let here = attempt_outbox courier notice audit in
      omega (arith, attempt_outbox-grows courier c reference notice audit, h here.audit)

  retry_outbox-grows :
      (files : List File) (audit : List Attempt)
      → successes c reference audit ≤ successes c reference (retry_outbox courier files audit).audit
  unfolding retry_outbox
  retry_outbox-grows [] audit = omega arith
  retry_outbox-grows (file ∷ files) audit =
      grows_file file file.content audit (λ later. retry_outbox courier files later)
        (λ later. retry_outbox-grows files later)

  put_back-awaits :
      (stamp : ℕ) (o : Option Notice) (files : List File)
      → awaits c reference o ≡ true
      → outbox_awaits c reference (put_back stamp o files) ≡ true
  put_back-awaits stamp none files h = absurd (cc)
  put_back-awaits stamp (some notice) files h = ground (arith, h)

  put_back_others :
      (stamp : ℕ) (o : Option Notice) (files : List File)
      → outbox_awaits c reference files ≡ true
      → outbox_awaits c reference (put_back stamp o files) ≡ true
  put_back_others stamp none files h = h
  put_back_others stamp (some notice) files h = ground (arith, h)

  abbrev here : Notice → List Attempt → Attempted
  here notice audit = attempt_outbox courier notice audit

  abbrev tried : Payload → Store → Attempted
  tried payload store = attempt_outbox courier (new_notice courier payload) store.audit

  left_file :
      (file : File) (o : Option Notice) (files : List File) (audit : List Attempt)
      → file.content ≡ o
      → ((later : List Attempt)
          → outbox_awaits c reference files ≡ true
          → LeftIn later (retry_outbox courier files later))
      → (awaits c reference o || outbox_awaits c reference files) ≡ true
      → LeftIn audit (retry_file courier file o audit (λ later. retry_outbox courier files later))
  left_file file none files audit same_content h a = elim (h audit a) [
    | inl p ↦ inl (ground (arith, p))
    | inr more ↦ inr more
  ]
  left_file file (some notice) files audit same_content h a =
      by_place (awaits c reference (some notice)) refl a
    where
      by_place :
          (b : Bool)
          → awaits c reference (some notice) ≡ b
          → (b || outbox_awaits c reference files) ≡ true
          → LeftIn audit (
              retry_file courier file
                (some notice)
                audit
                (λ later. retry_outbox courier files later))
      by_place true its _ =
          let rest = retry_outbox-grows files (here notice audit).audit in
          elim (attempt_outbox-Left courier reference notice audit c its) [
            | inl p ↦ inl (put_back-awaits file.stamp (here notice audit).left _ p)
            | inr more ↦ inr (omega arith)
          ]
      by_place false _ others =
          let before = attempt_outbox-grows courier c reference notice audit in
          elim (h (here notice audit).audit others) [
            | inl p ↦ inl (put_back_others file.stamp (here notice audit).left _ p)
            | inr more ↦ inr (omega arith)
          ]

  retry_outbox-Left :
      (files : List File) (audit : List Attempt)
      → outbox_awaits c reference files ≡ true
      → LeftIn audit (retry_outbox courier files audit)
  unfolding retry_outbox
  retry_outbox-Left [] audit h = absurd (cc)
  retry_outbox-Left (file ∷ files) audit h =
      left_file file file.content files audit refl (λ later a. retry_outbox-Left files later a) h

  place_others :
      (file : File) (files : List File)
      → outbox_awaits c reference files ≡ true
      → outbox_awaits c reference (place file files) ≡ true
  place_others file [] h = absurd (cc)
  place_others file (f ∷ files) h = ground (arith, place_others file files)

  place_left_others :
      (stamp : ℕ) (o : Option Notice) (files : List File)
      → outbox_awaits c reference files ≡ true
      → outbox_awaits c reference (place_left stamp o files) ≡ true
  place_left_others stamp none files h = h
  place_left_others stamp (some notice) files h =
      place_others (record { stamp = stamp; content = some notice }) files h

  -- Of a store: the channel is still awaited there, or it has succeeded since.
  abbrev pub LeftFrom : List Attempt → Store → Type 0
  LeftFrom audit store =
      (outbox_awaits c reference store.outbox ≡ true)
      ⊎ (successes c reference audit < successes c reference store.audit)

  queue_notification-Left :
      (payload : Payload) (ok : Bool) (audit : List Attempt) (store : Store)
      → LeftFrom audit store
      → LeftFrom audit (queue_notification courier now payload ok store).1
  unfolding queue_notification
  queue_notification-Left payload ok audit store h =
      by_flag (not courier.email_enabled && not courier.webhook_enabled)
    where
      queued : LeftFrom audit (record store {
        outbox = place_left (stamp_of now) (tried payload store).left store.outbox;
        audit = (tried payload store).audit;
      })
      queued =
          let more =
            attempt_outbox-grows courier c reference (new_notice courier payload) store.audit in
          elim h [
            | inl p ↦
                inl (place_left_others (stamp_of now) (tried payload store).left store.outbox p)
            | inr s ↦ inr (omega arith)
          ]

      by_flag :
          (b : Bool)
          → let r : Bool × Store =
              (if b then (ok, store) else (
                (tried payload store).all_ok && ok,
                record store {
                  outbox = place_left (stamp_of now) (tried payload store).left store.outbox;
                  audit = (tried payload store).audit;
                },
              )) in
            LeftFrom audit r.1
      by_flag true = h
      by_flag false = queued

  on_command-Left :
      (id : Text) (command : Command) (ok : Bool) (audit : List Attempt) (store : Store)
      → LeftFrom audit store
      → LeftFrom audit (on_command courier now id command ok store).1
  unfolding on_command on_open on_recover
  on_command-Left id (open_incident severity event) ok audit store h =
      by_incident (store.incidents event)
    where
      by_incident :
          (o : Option Incident)
          → LeftFrom audit (on_open courier now id severity event o ok store).1
      by_incident none = queue_notification-Left _ ok audit _ h
      by_incident (some incident) = h
  on_command-Left id (recover event) ok audit store h = by_incident (store.incidents event)
    where
      by_incident :
          (o : Option Incident) → LeftFrom audit (on_recover courier now event o ok store).1
      by_incident none = h
      by_incident (some incident) = queue_notification-Left _ ok audit _ h
  on_command-Left id (notify severity event) ok audit store h =
      queue_notification-Left _ ok audit store h

-- Whatever command is run and whatever the channels answer: a channel that awaits a notification in the
-- outbox, of an incident's reference and a status, awaits it still after the run, unless an attempt at that
-- reference and status on that channel has succeeded in the run.
pub run_command-Left :
    (courier : Courier) (now : ℕ) (id : Text) (command : Command) (store : Store) (c : Channel)
    (reference : Title)
    → outbox_awaits c reference store.outbox ≡ true
    → LeftFrom courier now c reference store.audit (run_command courier now id command store).1
unfolding run_command
run_command-Left courier now id command store c reference h =
    on_command-Left courier now c reference id command _ store.audit _
      (retry_outbox-Left courier now c reference store.outbox store.audit h)
