-- ===== src/Rotation/Steps.antt =====
-- The steps of one rotation: stage, addKey, wait, prove, swap, schedule.
use postfix_m365_relay.Base.{
  ℕ, zero, suc, ◌==◌, Bool, true, false, not, ◌&&◌, Option, none, some, List, [], ◌∷◌, same,
  if◌then◌else◌, String, Text,
}
use postfix_m365_relay.Credential.Thumbprint.{Credential, credential_thumbprint}
use postfix_m365_relay.Credential.Owner.{rotation_display_name, is_empty}
use postfix_m365_relay.Machine.Types.{
  Outcome, ok, raised, outlook, get_app, post_add, Body, live_key, live_cert, new_key, new_cert,
  previous_key, previous_cert, key_pem, cert_pem, Services, Config, State,
}
use postfix_m365_relay.Machine.Exec.{Exec, pure, lift, attempt, ◌>>=◌, ◌>>◌}
use postfix_m365_relay.Machine.Files.{Pair, write_file, unlink, replace}
use postfix_m365_relay.Machine.Actions.{
  clock, seconds, sleep, log, write_state, token, proof, graph, key_credentials, key_id_of,
  make_certificate, send_proof_message, upstream_port, run_immediate_token_refresh, send_alert,
}
use postfix_m365_relay.Rotation.Removal.{lists_key, remove_key}
use postfix_m365_relay.Rotation.Housekeeping.{without_addition}

abbrev pub with_addition : Text → Text → ℕ → State → State
with_addition key_id thumbprint now state = record state {
  pending_addition = some (record { key_id = key_id; thumbprint = thumbprint; added_at = now });
}

abbrev pub with_removal : Text → Text → ℕ → State → State
with_removal key_id thumbprint now state = record state {
  pending_removal = some (record { key_id = key_id; thumbprint = thumbprint; rotated_at = now });
}

-- The key that the loop over `keyCredentials` schedules: the first with the thumbprint of the replaced
-- certificate that is not the key just added.
unfoldable pub find_replaced : Text → Text → List Credential → Option Text
find_replaced added old_thumbprint [] = none
find_replaced added old_thumbprint (c ∷ cs) =
    if not (same c.key_id added) && same (credential_thumbprint c) old_thumbprint
    then some c.key_id
    else find_replaced added old_thumbprint cs

-- A status of 200 makes the wait look at the body.
abbrev pub key_visible : Text → ℕ × Body → Outcome Bool
key_visible key_id (status, body) =
    if status == 200
    then elim (key_credentials body) [ ok ks ↦ ok (lists_key key_id ks) | raised e ↦ raised e ]
    else ok false

abbrev pub replaced_key : Text → Text → ℕ × Body → Outcome (Option Text)
replaced_key added old (status, body) =
    if status == 200
    then elim (key_credentials body) [
      | ok ks ↦ ok (find_replaced added old ks)
      | raised e ↦ raised e
    ]
    else ok none

unfoldable pub unlink_staged : Exec (Unit {0})
unlink_staged = do unlink new_key; unlink new_cert

-- Step 6. The four renames, in the order of the source.
unfoldable pub swap_pairs : Exec (Unit {0})
swap_pairs = do
  replace live_key previous_key
  replace live_cert previous_cert
  replace new_key live_key
  replace new_cert live_cert

module _ (svc : Services) (cfg : Config) where
  -- A new pair, under the suffix .new; nothing live is touched.
  unfoldable pub stage_certificate : Exec Pair
  stage_certificate = do
    fresh ← make_certificate svc cfg
    write_file svc new_key (key_pem fresh.key)
    write_file svc new_cert (cert_pem fresh.cert)
    log svc cfg "stage-certificate" "ok"
    pure fresh

  unfoldable pub added_key : ℕ → Body → Exec (Option Text)
  added_key status result =
      if not (status == 200)
      then (do log svc cfg "add-key" "FAILED"; unlink_staged; pure none)
      else (do key_id ← lift (key_id_of result); log svc cfg "add-key" "ok"; pure (some key_id))

  -- addKey, authorised by the current certificate. `none` is a refusal.
  unfoldable pub add_key : Pair → Pair → Text → Exec (Option Text)
  unfolding added_key
  add_key current fresh bearer = do
    assertion ← proof svc cfg current
    (status, result) ←
        graph svc cfg
          (post_add fresh.cert (rotation_display_name cfg.instance_id cfg.today) assertion) bearer
    added_key status result

  unfoldable pub abandoned : State → Bool → Exec (Unit {0})
  abandoned state removed =
      if removed
      then (do log svc cfg "abandon" "ok"; write_state svc cfg (without_addition state))
      else log svc cfg "abandon" "FAILED"

  -- The nested function `abandon`.
  unfoldable pub abandon : Pair → State → Text → String → Exec ℕ
  unfolding abandoned
  abandon current state added step = do
    log svc cfg step "FAILED"
    removed ← remove_key svc cfg current added
    abandoned state removed
    unlink_staged
    log svc cfg step "note"
    pure 1

  -- Step 4, with the rounds that are left.
  unfoldable pub await_replication : Text → Text → ℕ → Exec Bool
  await_replication added bearer zero = pure false
  await_replication added bearer (suc rounds) = do
    sleep svc cfg 5
    reply ← graph svc cfg get_app bearer
    visible ← lift (key_visible added reply)
    if visible
        then (do log svc cfg "await-replication" "ok"; pure true)
        else await_replication added bearer rounds

  abbrev pub retry_token : Exec (Option Text) → Bool → Outcome Text → Exec (Option Text)
  retry_token again first (ok bearer) = do log svc cfg "prove-token" "ok"; pure (some bearer)
  retry_token again first (raised e) =
      (if first then log svc cfg "prove-token" "waiting" else pure tt)
      >> (sleep svc cfg 30 >> again)

  -- Step 5: the token service may accept the new key later than the directory shows it.
  unfoldable pub prove_token : Pair → Bool → ℕ → Exec (Option Text)
  prove_token fresh first zero = pure none
  prove_token fresh first (suc rounds) = do
    answer ← attempt (token svc cfg outlook fresh)
    retry_token (prove_token fresh false rounds) first answer

  unfoldable pub schedule : Pair → State → ℕ → Option Text → Exec State
  schedule current state now none = do log svc cfg "schedule-retire" "note"; pure state
  schedule current state now (some key_id) =
      if is_empty key_id then (do log svc cfg "schedule-retire" "note"; pure state) else (do
        log svc cfg "schedule-retire" "ok"
        pure (with_removal key_id current.cert.digest (seconds now) state))

  -- Step 7: the replaced key is scheduled, and the state is written.
  unfoldable pub schedule_removal : Pair → State → Text → Text → Exec (Unit {0})
  unfolding schedule
  schedule_removal current state added bearer = do
    reply ← graph svc cfg get_app bearer
    old ← lift (replaced_key added current.cert.digest reply)
    now ← clock svc cfg
    state' ← schedule current state now old
    write_state svc cfg state'

  unfoldable pub announce : Bool → Exec ℕ
  announce refreshed =
      if refreshed
      then (do log svc cfg "rotate" "ok"; send_alert svc cfg; pure 0)
      else (do log svc cfg "refresh-token" "FAILED"; pure 1)

  unfoldable pub adopt : Pair → State → Text → Text → Exec ℕ
  unfolding announce
  adopt current state added bearer = do
    swap_pairs
    log svc cfg "swap" "ok"
    schedule_removal current (without_addition state) added bearer
    refreshed ← run_immediate_token_refresh svc cfg
    announce refreshed

  unfoldable pub after_proof : Pair → State → Text → Text → Bool → Exec ℕ
  after_proof current state added bearer sent =
      if sent
      then (do log svc cfg "prove-send" "ok"; adopt current state added bearer)
      else abandon current state added "prove-send"

  -- The proof message is sent with the token of the new certificate.
  unfoldable pub after_token : Pair → Pair → State → Text → Text → Text → Option Text → Exec ℕ
  after_token current fresh state recipient added bearer none =
      abandon current state added "prove-token"
  after_token current fresh state recipient added bearer (some smtp_token) = do
    port ← upstream_port svc cfg
    sent ← send_proof_message svc cfg smtp_token recipient fresh.cert.digest
    after_proof current state added bearer sent

  unfoldable pub after_wait : Pair → Pair → State → Text → Text → Text → Bool → Exec ℕ
  after_wait current fresh state recipient added bearer visible =
      if visible
      then (do
        smtp_token ← prove_token fresh true 20
        after_token current fresh state recipient added bearer smtp_token)
      else abandon current state added "await-replication"

  -- From the answer of addKey on: the key is recorded, awaited, proven and adopted, or abandoned.
  unfoldable pub carry_through : Pair → Pair → State → Text → Text → Option Text → Exec ℕ
  unfolding after_wait after_token after_proof
  carry_through current fresh state recipient bearer none = pure 1
  carry_through current fresh state recipient bearer (some added) = do
    now ← clock svc cfg
    let recorded = with_addition added fresh.cert.digest (seconds now) state
    write_state svc cfg recorded
    visible ← await_replication added bearer 24
    after_wait current fresh recorded recipient added bearer visible
