-- ===== src/Alert/Due.antt =====
-- How long the notifications of the outbox wait at most: failures before a time do not move it.
use postfix_m365_relay.Base.{
  if◌then◌else◌, suc, ◌∙◌, none, false, true, [], ◌∷◌, some, List, Option, ◌≡◌, refl, ℕ, Bool, not,
  leb, ltb, ◌&&◌, ◌||◌, all, ◌≤◌, ◌+◌, ◌*◌, arith, ap,
}
use postfix_m365_relay.Alert.Outbox.{
  Channel, Courier, Payload, Attempt, Delivery, Notice, File, Tried, email, webhook,
  attempt_channel, postponed, settle, deliver, attempt_outbox, retry_outbox, retry_file, put_back,
  remaining, second, backoff,
}
use postfix_m365_relay.Alert.Backoff.{backoff-bounds}

-- The channel waits until this time at most.
abbrev pub is_due : ℕ → Delivery → Bool
is_due t d = not d.pending || leb d.next_attempt t

abbrev pub content_due : ℕ → Option Notice → Bool
content_due t none = true
content_due t (some notice) = is_due t notice.email_state && is_due t notice.webhook_state

abbrev pub all_due : ℕ → List File → Bool
all_due t files = all (λ file. content_due t file.content) files

backoff_hour : (n : ℕ) → backoff n ≤ 3600
backoff_hour n = (backoff-bounds n n (omega arith)).2

module _ (courier : Courier) (t : ℕ) where
  -- What is due by then stays so: a failure before it adds an hour at most.
  module _ (now : ℕ) (early : now + 3600 * second ≤ t) (c : Channel) (payload : Payload) where
    postponed_due : (d : Delivery) → is_due t (postponed now d) ≡ true
    unfolding postponed
    postponed_due d =
        let hour = backoff_hour (suc d.attempts) in
        let bound : now + backoff (suc d.attempts) * second ≤ t = omega arith in ground arith

    attempt_channel-due :
        (d : Delivery) (audit : List Attempt)
        → is_due t d ≡ true
        → is_due t (attempt_channel courier now c payload d audit).delivery ≡ true
    unfolding attempt_channel
    attempt_channel-due d audit h =
        by_flags d.pending (ltb now d.next_attempt) (deliver courier c payload audit)
      where
        by_flags :
            (p b accepted : Bool)
            → let r : Tried =
                (if not p
                  then record { delivery = d; succeeded = true; audit = audit }
                  else if b
                  then record { delivery = d; succeeded = false; audit = audit }
                  else settle courier now c payload d audit accepted) in
              is_due t r.delivery ≡ true
        by_flags false b accepted = h
        by_flags true true accepted = h
        by_flags true false true = refl
        by_flags true false false = postponed_due d

  remaining_due :
      (payload : Payload) (e w : Delivery)
      → is_due t e ≡ true
      → is_due t w ≡ true
      → content_due t (remaining payload e w) ≡ true
  remaining_due payload e w h k = by_flag (e.pending || w.pending)
    where
      by_flag :
          (b : Bool)
          → content_due t (
              if b
              then some (record { payload = payload; email_state = e; webhook_state = w })
              else none)
            ≡ true
      by_flag true = rw (h, k) refl
      by_flag false = refl

  put_back_due :
      (stamp : ℕ) (o : Option Notice) (files : List File)
      → content_due t o ≡ true
      → all_due t files ≡ true
      → all_due t (put_back stamp o files) ≡ true
  put_back_due stamp none files h k = k
  put_back_due stamp (some notice) files h k = rw (h, k) refl

  module _ (early : (audit : List Attempt) → courier.clock audit + 3600 * second ≤ t) where
    attempt_outbox-due :
        (notice : Notice) (audit : List Attempt)
        → content_due t (some notice) ≡ true
        → content_due t (attempt_outbox courier notice audit).left ≡ true
    unfolding attempt_outbox
    attempt_outbox-due notice audit h =
        let now = courier.clock audit in
        let e = attempt_channel courier now email notice.payload notice.email_state audit in
        remaining_due notice.payload _ _
          (attempt_channel-due now (early audit) email notice.payload notice.email_state audit
            (ground arith))
          (attempt_channel-due now (early audit) webhook notice.payload notice.webhook_state e.audit
            (ground arith))

    file_due :
        (file : File) (o : Option Notice) (files : List File) (audit : List Attempt)
        → file.content ≡ o
        → content_due t o ≡ true
        → ((later : List Attempt) → all_due t (retry_outbox courier files later).files ≡ true)
        → all_due t
            (retry_file courier file o audit (λ later. retry_outbox courier files later)).files
          ≡ true
    file_due file none files audit e h k =
        ap (λ o. content_due t o && all_due t (retry_outbox courier files audit).files) e ∙ k audit
    file_due file (some notice) files audit e h k =
        let here = attempt_outbox courier notice audit in
        put_back_due file.stamp here.left _ (attempt_outbox-due notice audit h) (k here.audit)

    pub retry_outbox-due :
        (files : List File) (audit : List Attempt)
        → all_due t files ≡ true
        → all_due t (retry_outbox courier files audit).files ≡ true
    unfolding retry_outbox
    retry_outbox-due [] audit h = refl
    retry_outbox-due (file ∷ files) audit h =
        file_due file file.content files audit refl (ground arith)
          (λ later. retry_outbox-due files later (ground arith))
