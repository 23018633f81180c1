-- ===== src/Tests/RotationRuns.antt =====
-- Runs of the rotation over the fixture, and witnesses of the theorems on it.
use mathlib.Core.List.Memᴰ.{head}
use postfix_m365_relay.Base.{◌&&◌, ◌||◌, [], ◌∷◌, Memᴰ, ℕ, ◌≡◌, refl, true, none, some, codes}
use postfix_m365_relay.Machine.Types.{
  created, ok, Outcome, Machine, live_cert, live_key, previous_cert, empty_state, cert_pem, key_pem,
}
use postfix_m365_relay.Machine.Exec.{◌>>=◌}
use postfix_m365_relay.Machine.Files.{load, replace, write_file, unlink}
use postfix_m365_relay.Machine.Actions.{
  clock, sleep, log, write_state, token, proof, graph, make_certificate, send_proof_message,
  upstream_port, run_immediate_token_refresh, send_alert, read_state, days_remaining,
  key_credentials, key_id_of, error_of,
}
use postfix_m365_relay.Rotation.Removal.{remove_key, remove_key_by_hand, may_remove}
use postfix_m365_relay.Rotation.Housekeeping.{settle_addition, retire_old}
use postfix_m365_relay.Rotation.Steps.{
  stage_certificate, added_key, add_key, carry_through, abandon, await_replication, prove_token,
  swap_pairs, adopt, schedule_removal, unlink_staged, find_replaced,
}
use postfix_m365_relay.Rotation.Run.{run_rotation, rotate_if_due}
use postfix_m365_relay.Credential.Owner.{
  is_stamp, rotation_display_name, classify_credential, instance_id_of,
}
use postfix_m365_relay.Credential.Thumbprint.{Credential, credential_thumbprint}
use postfix_m365_relay.Credential.Ascii.{is_space, upper_char, is_hex, strip}
use postfix_m365_relay.Credential.Failure.{remove_key_already_gone}
use postfix_m365_relay.Rotation.Confirmed.{confirmed, remove_key-confirmed}
use postfix_m365_relay.Rotation.Proven.{guarded}
use postfix_m365_relay.Rotation.Proven.Whole.{run_rotation-proven}
use postfix_m365_relay.Rotation.Confirmed.{removal_asked}
use postfix_m365_relay.Rotation.Accounted.{accounted}
use postfix_m365_relay.Rotation.Accounted.Whole.{carry_through-accounted, was_raised, ends_cut}
use postfix_m365_relay.Rotation.Additions.{additions, nobody, run_rotation-Blocked}
use postfix_m365_relay.Rotation.Gate.{IsPermitted, remove_key_by_hand-IsPermitted}
use postfix_m365_relay.Tests.Fixture.{
  old_key, corrupt, accepting, refusing, settings, start, staged, lonely, insisting, old_cert,
  old_pair, fresh_pair, fresh_digest,
}
use postfix_m365_relay.Rotation.Reset.Fresh.{reset-IsFresh, IsFresh}
use postfix_m365_relay.Rotation.Reset.{reset}
use postfix_m365_relay.Rotation.Listing.{
  list_credentials-IsOwn, verdict_of, list_credentials, IsOwn,
}

-- Everything that a run computes with.
abbrev pub Status : Type 0
Status = Outcome ℕ × Machine

run_accepted : Status
unfolding run_rotation load clock read_state settle_addition retire_old rotate_if_due
    stage_certificate add_key carry_through abandon await_replication prove_token swap_pairs adopt
    schedule_removal replace write_file unlink log write_state token proof graph make_certificate
    send_proof_message upstream_port run_immediate_token_refresh send_alert days_remaining
    key_credentials key_id_of rotation_display_name ◌>>=◌ find_replaced credential_thumbprint
    is_space upper_char is_hex strip sleep
run_accepted = run_rotation accepting settings start

run_refused : Status
unfolding run_accepted unlink_staged remove_key error_of remove_key_already_gone
run_refused = run_rotation refusing settings start

-- The new pair is live and the old one is kept beside it; its key is to be retired.
accepted_run :
    (run_accepted.0 ≡ ok 0)
    × (run_accepted.1.files previous_cert ≡ some (cert_pem old_cert))
    × (run_accepted.1.files live_key ≡ some (key_pem 2))
unfolding run_accepted
accepted_run = (refl, refl, refl)

-- Where no message is accepted, the old pair stays live.
refused_run :
    (run_refused.0 ≡ ok 1)
    × (run_refused.1.files live_cert ≡ some (cert_pem old_cert))
    × (run_refused.1.files live_key ≡ some (key_pem 1))
unfolding run_refused
refused_run = (refl, refl, refl)

run_rotation-proven_example : guarded (run_rotation accepting settings start).1.history ≡ true
run_rotation-proven_example = run_rotation-proven accepting settings start refl

removal_done : (remove_key accepting settings old_pair (codes "k-old") start).0 ≡ ok true
unfolding run_refused
removal_done = refl

remove_key-confirmed_example :
    confirmed
      (codes "k-old")
      (remove_key accepting settings old_pair (codes "k-old") start).1.history
    ≡ true
remove_key-confirmed_example =
    remove_key-confirmed accepting settings old_pair (codes "k-old") start removal_done

carry_through-accounted_example :
    let r =
      (added_key refusing settings 200 (created (codes "k-new"))
          >>= carry_through refusing settings old_pair fresh_pair empty_state
              (codes "admin@example.com")
              (codes "token"))
        staged in
    (accounted (codes "k-new") fresh_digest r.1 || (was_raised r.0 && ends_cut r.1.history)) ≡ true
carry_through-accounted_example =
    carry_through-accounted refusing settings old_pair fresh_pair empty_state
      (codes "admin@example.com") (codes "token") (codes "k-new") staged refl refl

old_pair_loaded : load live_key live_cert start ≡ (ok old_pair, start)
unfolding load ◌>>=◌
old_pair_loaded = refl

run_rotation-Blocked_example : additions (run_rotation accepting lonely start).1.history ≡ 0
run_rotation-Blocked_example =
    run_rotation-Blocked accepting lonely old_pair start old_pair_loaded (nobody refl)

removal_by_hand_asked :
    removal_asked
      (codes "k-old")
      (remove_key_by_hand accepting insisting fresh_pair (codes "k-old") start).1.history
    ≡ true
unfolding run_refused remove_key_by_hand may_remove classify_credential instance_id_of
removal_by_hand_asked = refl

remove_key_by_hand-IsPermitted_example :
    IsPermitted accepting insisting fresh_pair
      (codes "k-old")
      none
      (remove_key_by_hand accepting insisting fresh_pair (codes "k-old") start).1
remove_key_by_hand-IsPermitted_example =
    remove_key_by_hand-IsPermitted accepting insisting fresh_pair (codes "k-old") start refl
      removal_by_hand_asked

reset-IsFresh_example : IsFresh (reset accepting insisting corrupt)
reset-IsFresh_example = reset-IsFresh accepting insisting corrupt refl refl (λ call h. refl)

-- A replaced key of this instance, beside the live one.
abbrev replaced_key_entry : Credential
replaced_key_entry = record {
  key_id = codes "k-1";
  custom_key_identifier = some (codes "FFFFFFFFFFFFFFFFFFFFFFFFFFFFFFFFFFFFFFFF");
  display_name = some (codes "postfix-m365-relay mail relay inst:a (rotated 2025-01-01)");
}

offered :
    Memᴰ
      (codes "k-1")
      (list_credentials
        (verdict_of accepting settings old_pair empty_state)
        (old_key ∷ replaced_key_entry ∷ [])).removable
unfolding list_credentials is_stamp classify_credential instance_id_of credential_thumbprint
    is_space upper_char is_hex strip
offered = head refl

list_credentials-IsOwn_example :
    IsOwn accepting settings old_pair empty_state (codes "k-1") (old_key ∷ replaced_key_entry ∷ [])
list_credentials-IsOwn_example =
    list_credentials-IsOwn accepting settings old_pair empty_state
      (old_key ∷ replaced_key_entry ∷ []) (codes "k-1") offered
