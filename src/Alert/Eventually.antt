-- ===== src/Alert/Eventually.antt =====
-- Retries of the outbox one after the other, until its notifications are delivered.
use postfix_m365_relay.Base.{
  if◌then◌else◌, ◌∙◌, none, false, true, [], ◌∷◌, some, List, Option, ◌≡◌, refl, ℕ, Bool, not, ltb,
  ◌&&◌, all, ◌≤◌, ◌+◌, ◌*◌, arith, ap,
}
use postfix_m365_relay.Alert.Outbox.{
  Channel, Courier, Payload, Attempt, Delivery, Notice, File, Retried, Tried, email, webhook,
  attempt_channel, settle, deliver, attempt_outbox, retry_outbox, retry_file, second, is_enabled,
}
use postfix_m365_relay.Alert.Lifecycle.{is_unreadable}
use postfix_m365_relay.Alert.Due.{is_due, content_due, all_due, retry_outbox-due}

module _ (courier : Courier) (t : ℕ) (late : (audit : List Attempt) → t ≤ courier.clock audit)
    (open_to_all : (c : Channel) (payload : Payload) (audit : List Attempt)
      → courier.accepts c payload audit ≡ true) where
  accepted :
      (c : Channel) (payload : Payload) (audit : List Attempt)
      → deliver courier c payload audit ≡ true
  unfolding deliver
  accepted c payload audit = by_flag (is_enabled courier c)
    where
      by_flag : (b : Bool) → (if b then courier.accepts c payload audit else true) ≡ true
      by_flag true = open_to_all c payload audit
      by_flag false = refl

  attempt_channel-done :
      (now : ℕ) (c : Channel) (payload : Payload) (d : Delivery) (audit : List Attempt)
      → t ≤ now
      → is_due t d ≡ true
      → ((attempt_channel courier now c payload d audit).delivery.pending ≡ false)
        × ((attempt_channel courier now c payload d audit).succeeded ≡ true)
  unfolding attempt_channel
  attempt_channel-done now c payload d audit h k =
      by_flags d.pending refl (ltb now d.next_attempt) refl (deliver courier c payload audit)
        (accepted c payload audit)
    where
      by_flags :
          (p : Bool)
          → d.pending ≡ p
          → (b : Bool) → ltb now d.next_attempt ≡ b
          → (taken : Bool) → taken ≡ true
          → let r : Tried =
              (if not p
                then record { delivery = d; succeeded = true; audit = audit }
                else if b
                then record { delivery = d; succeeded = false; audit = audit }
                else settle courier now c payload d audit taken) in
            (r.delivery.pending ≡ false) × (r.succeeded ≡ true)
      by_flags false e b u taken v = (e, refl)
      by_flags true e true u taken v = absurd (ground arith)
      by_flags true e false u true v = (refl, refl)
      by_flags true e false u false v = absurd (cc v)

  attempt_outbox-done :
      (notice : Notice) (audit : List Attempt)
      → content_due t (some notice) ≡ true
      → ((attempt_outbox courier notice audit).left ≡ none)
        × ((attempt_outbox courier notice audit).all_ok ≡ true)
  unfolding attempt_outbox
  attempt_outbox-done notice audit h =
      let now = courier.clock audit in
      let e = attempt_channel courier now email notice.payload notice.email_state audit in
      let one =
        attempt_channel-done now email notice.payload notice.email_state audit (late audit)
          (ground arith) in
      let two =
        attempt_channel-done now webhook notice.payload notice.webhook_state e.audit (late audit)
          (ground arith) in
      (rw (one.0, two.0) refl, rw (one.1, two.1) refl)

  file_done :
      (file : File) (o : Option Notice) (files : List File) (audit : List Attempt)
      → file.content ≡ o
      → content_due t o ≡ true
      → ((later : List Attempt)
          → (all is_unreadable (retry_outbox courier files later).files ≡ true)
            × ((retry_outbox courier files later).all_ok ≡ true))
      → let r : Retried =
          retry_file courier file o audit (λ later. retry_outbox courier files later) in
        (all is_unreadable r.files ≡ true) × (r.all_ok ≡ true)
  file_done file none files audit e h k =
      let rest = k audit in
      (
        ap
              (λ o.
                elim o [ none ↦ true | some notice ↦ false ]
                && all is_unreadable (retry_outbox courier files audit).files)
              e
            ∙ rest.0,
        rest.1,
      )
  file_done file (some notice) files audit e h k =
      let here = attempt_outbox-done notice audit h in
      let rest = k (attempt_outbox courier notice audit).audit in
      (rw (here.0, rest.0) refl, rw (here.1, rest.1) refl)

  retry_outbox-done :
      (files : List File) (audit : List Attempt)
      → all_due t files ≡ true
      → (all is_unreadable (retry_outbox courier files audit).files ≡ true)
        × ((retry_outbox courier files audit).all_ok ≡ true)
  unfolding retry_outbox
  retry_outbox-done [] audit h = (refl, refl)
  retry_outbox-done (file ∷ files) audit h =
      file_done file file.content files audit refl (ground arith)
        (λ later. retry_outbox-done files later (ground arith))

-- Retries, each with what answers and the clock at its time.
abbrev pub retries : List Courier → List File → List Attempt → List File
retries [] files audit = files
retries (courier ∷ couriers) files audit =
    let r = retry_outbox courier files audit in retries couriers r.files r.audit

-- Each of them ends more than an hour before this time.
pub data AreEarly (t : ℕ) : List Courier → Type 0 where
  none_left : AreEarly t []
  and_early :
      {courier : Courier} {couriers : List Courier}
      → ((audit : List Attempt) → courier.clock audit + 3600 * second ≤ t)
      → AreEarly t couriers
      → AreEarly t (courier ∷ couriers)

retries-due :
    (t : ℕ) (couriers : List Courier) (files : List File) (audit : List Attempt)
    → AreEarly t couriers
    → all_due t files ≡ true
    → all_due t (retries couriers files audit) ≡ true
retries-due t [] files audit none_left h = h
retries-due t (courier ∷ couriers) files audit (and_early early others) h =
    let r = retry_outbox courier files audit in
    retries-due t couriers r.files r.audit others (retry_outbox-due courier t early files audit h)

-- However often and however it failed: one retry of the outbox, an hour or more after the last failure,
-- with both channels accepting, delivers everything that can be read and reports success. At the beginning
-- nothing waits beyond that time.
pub retry_outbox-delivers :
    (couriers : List Courier) (courier : Courier) (t : ℕ) (files : List File)
    (audit later : List Attempt)
    → all_due t files ≡ true
    → AreEarly t couriers
    → ((attempts : List Attempt) → t ≤ courier.clock attempts)
    → ((c : Channel) (payload : Payload) (attempts : List Attempt)
        → courier.accepts c payload attempts ≡ true)
    → let r = retry_outbox courier (retries couriers files audit) later in
      (all is_unreadable r.files ≡ true) × (r.all_ok ≡ true)
retry_outbox-delivers couriers courier t files audit later h early late open_to_all =
    retry_outbox-done courier t late open_to_all (retries couriers files audit) later
      (retries-due t couriers files audit early h)
