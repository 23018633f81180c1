-- ===== src/Alert/Apart.antt =====
-- The two channels of a notification, in the one order and the other.
use postfix_m365_relay.Base.{
  ltb, false, true, sym, not, ap, ◌∙◌, if◌then◌else◌, arith, List, ◌≡◌, ◌&&◌, Bool, refl, ℕ,
}
use postfix_m365_relay.Alert.Outbox.{
  postponed, delivered, settle, is_enabled, remaining, email, Tried, webhook, deliver,
  attempt_channel, Attempted, Attempt, Delivery, Payload, Channel, Notice, Courier, attempt_outbox,
}

-- An attempt less the audit.
abbrev result : Tried → Delivery × Bool
result tried = (tried.delivery, tried.succeeded)

module _ (courier : Courier) where
  -- The loop of `attempt_outbox` with its two channels exchanged.
  abbrev pub webhook_first : Notice → List Attempt → Attempted
  webhook_first notice audit =
      let now = courier.clock audit in
      let w = attempt_channel courier now webhook notice.payload notice.webhook_state audit in
      let e = attempt_channel courier now email notice.payload notice.email_state w.audit in
      record {
        left = remaining notice.payload e.delivery w.delivery;
        all_ok = w.succeeded && e.succeeded;
        audit = e.audit;
      }

  -- What a channel answers does not depend on the attempts that were made before.
  abbrev pub IsApart : Type 0
  IsApart =
      (c : Channel) (payload : Payload) (one two : List Attempt)
      → courier.accepts c payload one ≡ courier.accepts c payload two

  module _ (now : ℕ) (c : Channel) (payload : Payload) (d : Delivery) where
    -- It, from what the channel answers.
    abbrev outcome : Bool → Delivery × Bool
    outcome accepted =
        if not d.pending
        then (d, true)
        else if ltb now d.next_attempt
        then (d, false)
        else (if accepted then delivered d else postponed now d, accepted)

    attempt_channel-outcome :
        (audit : List Attempt)
        → result (attempt_channel courier now c payload d audit)
          ≡ outcome (deliver courier c payload audit)
    unfolding attempt_channel
    attempt_channel-outcome audit =
        by_flags d.pending (ltb now d.next_attempt) (deliver courier c payload audit)
      where
        by_flags :
            (p b accepted : Bool)
            → let t : Tried =
                (if not p
                  then record { delivery = d; succeeded = true; audit = audit }
                  else if b
                  then record { delivery = d; succeeded = false; audit = audit }
                  else settle courier now c payload d audit accepted) in
              let r : Delivery × Bool =
                (if not p
                  then (d, true)
                  else if b
                  then (d, false)
                  else (if accepted then delivered d else postponed now d, accepted)) in
              (t.delivery, t.succeeded) ≡ r
        by_flags false b accepted = refl
        by_flags true true accepted = refl
        by_flags true false accepted = refl

    deliver-apart :
        IsApart
        → (one two : List Attempt) → deliver courier c payload one ≡ deliver courier c payload two
    unfolding deliver
    deliver-apart apart one two =
        ap (λ b. if is_enabled courier c then b else true) (apart c payload one two)

    attempt_channel-apart :
        IsApart
        → (one two : List Attempt)
        → result (attempt_channel courier now c payload d one)
          ≡ result (attempt_channel courier now c payload d two)
    attempt_channel-apart apart one two =
        attempt_channel-outcome one
        ∙ (ap (λ b. outcome b) (deliver-apart apart one two) ∙ sym (attempt_channel-outcome two))

and_comm : (a b : Bool) → (a && b) ≡ (b && a)
and_comm a b = ground arith

-- Neither channel suppresses the other: exchanging the order in which they are tried changes neither
-- what stays in the outbox, with each channel's count of failures and the time of its next attempt, nor
-- whether all went well. The answers of a channel do not depend on the attempts before.
pub attempt_outbox-apart :
    (courier : Courier) (notice : Notice) (audit : List Attempt)
    → IsApart courier
    → ((attempt_outbox courier notice audit).left ≡ (webhook_first courier notice audit).left)
      × ((attempt_outbox courier notice audit).all_ok ≡ (webhook_first courier notice audit).all_ok)
unfolding attempt_outbox
attempt_outbox-apart courier notice audit apart =
    let now = courier.clock audit in
    let e = attempt_channel courier now email notice.payload notice.email_state audit in
    let w = attempt_channel courier now webhook notice.payload notice.webhook_state audit in
    let later = attempt_channel courier now email notice.payload notice.email_state w.audit in
    let one =
      attempt_channel-apart courier now webhook notice.payload notice.webhook_state apart e.audit
        audit in
    let two =
      attempt_channel-apart courier now email notice.payload notice.email_state apart audit
        w.audit in
    (
      ap (λ d. remaining notice.payload e.delivery d) (ap (λ r. r.0) one)
          ∙ ap (λ d. remaining notice.payload d w.delivery) (ap (λ r. r.0) two),
      ap (λ b. e.succeeded && b) (ap (λ r. r.1) one)
          ∙ (ap (λ b. b && w.succeeded) (ap (λ r. r.1) two) ∙ and_comm later.succeeded w.succeeded),
    )
