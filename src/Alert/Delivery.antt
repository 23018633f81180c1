-- ===== src/Alert/Delivery.antt =====
-- `attempt_outbox`: what becomes of a notification on a channel that awaits it.
use postfix_m365_relay.Base.{
  ◌||◌, not, ltb, inl, inr, ◌<◌, [], none, ◌+◌, ◌⊎◌, true, some, if◌then◌else◌, any, arith, ◌≡◌,
  false, ◌&&◌, same, ◌∷◌, ◌≤◌, Option, List, Bool, Text, ℕ,
}
use postfix_m365_relay.Alert.Outbox.{
  remaining, deliver, settle, postponed, attempt_outbox, Tried, Attempted, webhook, email, File,
  Payload, Delivery, Attempt, attempt_channel, Notice, Channel, Courier,
}

abbrev pub is_channel : Channel → Channel → Bool
is_channel email email = true
is_channel webhook webhook = true
is_channel _ _ = false

-- What tells a notification from the others: its incident's reference and its status. The notices that
-- open and recover one incident share the reference.
abbrev pub Title : Type 0
Title = Text × Text

abbrev pub is_titled : Title → Payload → Bool
is_titled title payload = same payload.reference_id title.0 && same payload.status title.1

-- The successful attempts of a channel at a notification.
abbrev pub is_success : Channel → Title → Attempt → Bool
is_success channel reference attempt =
    attempt.accepted
    && is_channel channel attempt.channel
    && same attempt.reference reference.0
    && same attempt.status reference.1

abbrev pub successes : Channel → Title → List Attempt → ℕ
successes channel reference [] = 0
successes channel reference (a ∷ audit) =
    (if is_success channel reference a then 1 else 0) + successes channel reference audit

abbrev pub delivery_of : Channel → Notice → Delivery
delivery_of email notice = notice.email_state
delivery_of webhook notice = notice.webhook_state

-- Is the channel still pending for the notification?
abbrev pub awaits : Channel → Title → Option Notice → Bool
awaits channel reference none = false
awaits channel reference (some notice) =
    is_titled reference notice.payload && (delivery_of channel notice).pending

abbrev pub outbox_awaits : Channel → Title → List File → Bool
outbox_awaits channel reference files = any (λ file. awaits channel reference file.content) files

module _ (courier : Courier) (now : ℕ) where
  -- One channel: the others' successes are untouched, and it stays pending or has succeeded.
  attempt_channel-grows :
      (c tried : Channel) (reference : Title) (payload : Payload) (d : Delivery)
      (audit : List Attempt)
      → successes c reference audit
        ≤ successes c reference (attempt_channel courier now tried payload d audit).audit
  unfolding attempt_channel
  attempt_channel-grows c tried reference payload d audit = ground arith

  -- Pending still, or one success more.
  abbrev Kept : Channel → Title → List Attempt → Tried → Type 0
  Kept c reference audit t =
      (t.delivery.pending ≡ true) ⊎ (successes c reference audit < successes c reference t.audit)

  module _ (reference : Title) (payload : Payload) (d : Delivery) (audit : List Attempt)
      (its : is_titled reference payload ≡ true) (pending : d.pending ≡ true) where
    settle-Kept :
        (c : Channel) (accepted : Bool)
        → Kept c reference audit (settle courier now c payload d audit accepted)
    unfolding postponed
    settle-Kept email true = inr (ground arith)
    settle-Kept webhook true = inr (ground arith)
    settle-Kept c false = inl pending

    attempt_channel-Kept :
        (c : Channel) → Kept c reference audit (attempt_channel courier now c payload d audit)
    unfolding attempt_channel
    attempt_channel-Kept c = by_flags d.pending (ltb now d.next_attempt) pending
      where
        by_flags :
            (p b : Bool)
            → p ≡ true
            → Kept c reference audit (
                if not p
                then record { delivery = d; succeeded = true; audit = audit }
                else if b
                then record { delivery = d; succeeded = false; audit = audit }
                else settle courier now c payload d audit (deliver courier c payload audit))
        by_flags false b h = absurd (cc)
        by_flags true true h = inl pending
        by_flags true false h = settle-Kept c (deliver courier c payload audit)

module _ (courier : Courier) where
  -- What is left of a notification for a channel that it awaited.
  abbrev pub Left : Channel → Title → List Attempt → Attempted → Type 0
  Left c reference audit a =
      (awaits c reference a.left ≡ true)
      ⊎ (successes c reference audit < successes c reference a.audit)

  pub attempt_outbox-grows :
      (c : Channel) (reference : Title) (notice : Notice) (audit : List Attempt)
      → successes c reference audit
        ≤ successes c reference (attempt_outbox courier notice audit).audit
  unfolding attempt_outbox
  attempt_outbox-grows c reference notice audit =
      let e =
        attempt_channel courier (courier.clock audit) email notice.payload notice.email_state
          audit in
      let one =
        attempt_channel-grows courier (courier.clock audit) c email reference notice.payload
          notice.email_state audit in
      let two =
        attempt_channel-grows courier (courier.clock audit) c webhook reference notice.payload
          notice.webhook_state e.audit in
      omega (arith, one, two)

  left_if :
      (c : Channel) (reference : Title) (notice : Notice) (b : Bool)
      → b ≡ true
      → awaits c reference (some notice) ≡ true
      → awaits c reference (if b then some notice else none) ≡ true
  left_if c reference notice false e h = absurd (cc)
  left_if c reference notice true e h = h

  remaining_of :
      (c : Channel) (reference : Title) (payload : Payload) (e w : Delivery)
      → is_titled reference payload ≡ true
      → (delivery_of c (record { payload = payload; email_state = e; webhook_state = w })).pending
        ≡ true
      → awaits c reference (remaining payload e w) ≡ true
  remaining_of email reference payload e w its p =
      left_if email reference (record { payload = payload; email_state = e; webhook_state = w })
        (e.pending || w.pending) (ground arith) (ground arith)
  remaining_of webhook reference payload e w its p =
      left_if webhook reference (record { payload = payload; email_state = e; webhook_state = w })
        (e.pending || w.pending) (ground arith) (ground arith)

  module _ (reference : Title) (notice : Notice) (audit : List Attempt) where
    abbrev e : Tried
    e = attempt_channel courier (courier.clock audit) email notice.payload notice.email_state audit

    abbrev w : Tried
    w =
        attempt_channel courier (courier.clock audit) webhook notice.payload notice.webhook_state
          e.audit

    pub attempt_outbox-Left :
        (c : Channel)
        → awaits c reference (some notice) ≡ true
        → Left c reference audit (attempt_outbox courier notice audit)
    unfolding attempt_outbox
    attempt_outbox-Left email h =
        let later =
          attempt_channel-grows courier (courier.clock audit) email webhook reference notice.payload
            notice.webhook_state e.audit in
        let its : is_titled reference notice.payload ≡ true = ground arith in
        elim (attempt_channel-Kept courier (courier.clock audit) reference notice.payload
          notice.email_state audit its (ground arith) email) [
            | inl p ↦ inl (remaining_of email reference notice.payload e.delivery w.delivery its p)
            | inr more ↦ inr (omega arith)
          ]
    attempt_outbox-Left webhook h =
        let before =
          attempt_channel-grows courier (courier.clock audit) webhook email reference notice.payload
            notice.email_state audit in
        let its : is_titled reference notice.payload ≡ true = ground arith in
        elim (attempt_channel-Kept courier (courier.clock audit) reference notice.payload
          notice.webhook_state e.audit its (ground arith) webhook) [
            | inl p ↦
                inl (remaining_of webhook reference notice.payload e.delivery w.delivery its p)
            | inr more ↦ inr (omega arith)
          ]
