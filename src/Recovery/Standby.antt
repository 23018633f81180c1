-- ===== src/Recovery/Standby.antt =====
-- The standby certificate: `_try_mint`, `_generate_standby`, `_advance_pending_standby` and
-- `_adopt_standby`. The helper script cert-action.sh is taken to be beside the program.
use postfix_m365_relay.Base.{
  ℕ, ◌==◌, Bool, true, false, not, ◌&&◌, Option, none, some, List, [], take, same, find,
  if◌then◌else◌, Text,
}
use postfix_m365_relay.Credential.Thumbprint.{Credential, credential_thumbprint}
use postfix_m365_relay.Credential.Owner.{is_empty}
use postfix_m365_relay.Machine.Types.{
  Outcome, ok, raised, http_error, outlook, graph_default, get_app, Content, live_key, live_cert,
  previous_key, previous_cert, recovery_key, recovery_cert, key_pem, cert_pem, Services, Config,
  State,
}
use postfix_m365_relay.Machine.Exec.{Exec, pure, lift, gets, attempt, ◌>>=◌, ◌>>◌}
use postfix_m365_relay.Machine.Files.{Pair, load, write_file, unlink, replace}
use postfix_m365_relay.Machine.Actions.{
  clock, seconds, log, write_state, read_state, token, graph, key_credentials, make_certificate,
  send_proof_message, upstream_port, run_immediate_token_refresh, cert_action,
}
use postfix_m365_relay.Rotation.Steps.{with_removal}

-- What `_try_mint` returns; the status is none where there was no HTTP answer, and the text of such a
-- failure is never looked at.
pub data Mint : Type 0 where
  minted_ok : Mint
  mint_failed : Option ℕ → Text → Mint

abbrev pub mint_of : Outcome Text → Mint
mint_of (ok bearer) = minted_ok
mint_of (raised (http_error code body)) = mint_failed (some code) (take 600 body)
mint_of (raised _) = mint_failed none []

abbrev pub is_there : Option Content → Bool
is_there none = false
is_there (some content) = true

-- `rotation.key_path.is_file() and rotation.cert_path.is_file()`, and for the standby
unfoldable pub live_files : Exec Bool
live_files = gets (λ s. is_there (s.files live_key) && is_there (s.files live_cert))

unfoldable pub standby_files : Exec Bool
standby_files = gets (λ s. is_there (s.files recovery_key) && is_there (s.files recovery_cert))

unfoldable pub discard_standby : Exec (Unit {0})
discard_standby = do unlink recovery_key; unlink recovery_cert

abbrev pub without_recovery : State → State
without_recovery state = record state { recovery = none }

abbrev pub without_fault : State → State
without_fault state = record state {
  recovery = none;
  cert_fault_streak = none;
  cert_fault_since = none;
}

abbrev pub with_standby : Text → ℕ → State → State
with_standby thumbprint now state = record state {
  recovery = some (record { thumbprint = thumbprint; generated_at = now });
}

-- The first key with the thumbprint of the replaced certificate.
abbrev pub old_key_in : Text → List Credential → Option Credential
old_key_in old credentials = find (λ c. same (credential_thumbprint c) old) credentials

abbrev pub lingering_key : Text → Bool → Outcome (List Credential) → Outcome (Option Credential)
lingering_key old false credentials = ok none
lingering_key old true (ok credentials) = ok (old_key_in old credentials)
lingering_key old true (raised e) = raised e

unfoldable pub swap_standby : Exec (Unit {0})
swap_standby = do
  replace live_key previous_key
  replace live_cert previous_cert
  replace recovery_key live_key
  replace recovery_cert live_cert

module _ (svc : Services) (cfg : Config) where
  unfoldable pub try_mint : Pair → Exec Mint
  try_mint pair = do answer ← attempt (token svc cfg outlook pair); pure (mint_of answer)

  unfoldable pub generate_standby : Exec ℕ
  generate_standby = do
    fresh ← make_certificate svc cfg
    write_file svc recovery_key (key_pem fresh.key)
    write_file svc recovery_cert (cert_pem fresh.cert)
    state ← read_state
    now ← clock svc cfg
    write_state svc cfg (with_standby fresh.cert.digest (seconds now) state)
    log svc cfg "recover" "ok"
    cert_action svc cfg "require"
    pure 0

  unfoldable pub scheduled : State → Text → Option Credential → Exec State
  scheduled state old none = pure state
  scheduled state old (some key) = do
    now ← clock svc cfg
    log svc cfg "recover" "ok"
    pure (with_removal key.key_id old (seconds now) state)

  -- The `try` block that schedules the old key.
  unfoldable pub schedule_old : Pair → Text → State → Exec State
  schedule_old standby old state = do
    bearer ← token svc cfg graph_default standby
    (status, body) ← graph svc cfg get_app bearer
    key ← lift (lingering_key old (status == 200) (key_credentials body))
    scheduled state old key

  unfoldable pub or_unscheduled : State → Outcome State → Exec State
  or_unscheduled state (ok state') = pure state'
  or_unscheduled state (raised e) = do log svc cfg "recover" "note"; pure state

  unfoldable pub adopt_standby : Pair → Pair → State → Exec ℕ
  unfolding schedule_old scheduled or_unscheduled
  adopt_standby current standby state = do
    swap_standby
    log svc cfg "recover" "ok"
    answer ← attempt (schedule_old standby current.cert.digest (without_fault state))
    state' ← or_unscheduled (without_fault state) answer
    write_state svc cfg state'
    cert_action svc cfg "clear"
    refreshed ← run_immediate_token_refresh svc cfg
    pure 0

  -- The `try` block that sends the proof message.
  unfoldable pub prove_standby : Pair → Text → Exec Bool
  prove_standby standby recipient = do
    bearer ← token svc cfg outlook standby
    port ← upstream_port svc cfg
    send_proof_message svc cfg bearer recipient standby.cert.digest

  abbrev pub was_sent : Outcome Bool → Bool
  was_sent (ok sent) = sent
  was_sent (raised e) = false

  unfoldable pub standby_proof : Pair → Option Text → Exec Bool
  standby_proof standby none = do log svc cfg "recover" "note"; pure true
  standby_proof standby (some recipient) =
      if is_empty recipient then (do log svc cfg "recover" "note"; pure true) else (do
        sent ← attempt (prove_standby standby recipient)
        if was_sent sent then pure true else (do log svc cfg "recover" "waiting"; pure false))

  unfoldable pub on_standby_mint : Pair → Pair → State → Mint → Exec ℕ
  unfolding standby_proof prove_standby
  on_standby_mint current standby state minted_ok = do
    proven ← standby_proof standby cfg.recipient
    if proven then adopt_standby current standby state else pure 0
  on_standby_mint current standby state (mint_failed status body) = do
    log svc cfg "recover" "waiting"
    cert_action svc cfg "remind"
    pure 0

  unfoldable pub on_standby : Pair → State → Outcome Pair → Exec ℕ
  on_standby current state (raised e) = do log svc cfg "recover" "note"; pure 0
  on_standby current state (ok standby) = do
    minted ← try_mint standby
    on_standby_mint current standby state minted

  unfoldable pub advance_standby : Pair → State → Exec ℕ
  unfolding on_standby on_standby_mint
  advance_standby current state = do
    there ← standby_files
    if not there
        then (do write_state svc cfg (without_recovery state); log svc cfg "recover" "note"; pure 0)
        else (do
          standby ← attempt (load recovery_key recovery_cert)
          on_standby current state standby)
