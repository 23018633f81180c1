-- ===== src/Tests/RecoveryRuns.antt =====
-- Passes of the recovery over the fixture, and witnesses of the theorems on it.
use postfix_m365_relay.Base.{[], codes, none, true, false, arith, some, ◌≡◌, refl, ℕ}
use postfix_m365_relay.Recovery.Evidence.{is_definitive, is_cert_fault}
use postfix_m365_relay.Tests.RotationRuns.{Status}
use postfix_m365_relay.Tests.Fixture.{
  noon, fresh_digest, fresh_pair, old_cert, start, counted, waiting, offline, settings, old_pair,
  dead, healthy, accepting, revoking,
}
use postfix_m365_relay.Credential.Failure.{classify_token_failure}
use postfix_m365_relay.Recovery.Run.{
  on_live_mint, on_live, examine, token_is_fresh, fault_at, too_early, run_recovery,
}
use postfix_m365_relay.Recovery.Persistent.{standby_within, run_recovery-within, IsDead}
use postfix_m365_relay.Recovery.Outcomes.{run_recovery-heals, asked, state_of, IsLive}
use postfix_m365_relay.Machine.Types.{
  previous_cert, live_key, key_pem, recovery_cert, recovery_key, cert_pem, live_cert,
}
use postfix_m365_relay.Credential.Ascii.{strip, is_hex, upper_char, is_space, lower_char}
use postfix_m365_relay.Recovery.Streak.{
  run_recovery-generates, standby_thumbprint, is_early_pass, IsFaulted,
}
use postfix_m365_relay.Machine.Actions.{
  key_credentials, upstream_port, send_proof_message, graph, run_immediate_token_refresh,
  cert_action, write_state, log, token, certificate_for, read_state, days_remaining, clock,
}
use postfix_m365_relay.Recovery.Healthy.{run_recovery-stale}
use postfix_m365_relay.Recovery.Standby.{
  standby_proof, swap_standby, adopt_standby, on_standby_mint, on_standby, advance_standby,
  try_mint, standby_files, live_files, mint_failed,
}
use postfix_m365_relay.Machine.Files.{replace, load}
use postfix_m365_relay.Machine.Exec.{pure, lift, gets, ◌>>=◌, attempt}
use postfix_m365_relay.Credential.Thumbprint.{credential_thumbprint}

adopting : Status
unfolding run_recovery clock read_state token_is_fresh examine live_files standby_files load on_live
    try_mint token attempt ◌>>=◌ gets lift pure on_live_mint fault_at days_remaining
    classify_token_failure advance_standby on_standby on_standby_mint adopt_standby swap_standby
    replace log write_state cert_action run_immediate_token_refresh graph send_proof_message
    upstream_port key_credentials standby_proof credential_thumbprint is_space upper_char is_hex
    strip lower_char
adopting = run_recovery revoking settings waiting

-- The standby takes the place of the refused certificate.
adopted :
    (adopting.1.files live_cert ≡ some (cert_pem fresh_pair.cert))
    × (adopting.1.files previous_cert ≡ some (cert_pem old_cert))
    × (adopting.1.files recovery_cert ≡ none)
unfolding adopting
adopted = (refl, refl, refl)

abbrev old_live : IsLive old_pair start
old_live = record { key_file = refl; cert_file = refl }

offline_fault :
    is_cert_fault (
      fault_at old_cert
        (offline.now (asked offline settings old_pair start).history)
        (classify_token_failure none []))
    ≡ false
unfolding fault_at days_remaining classify_token_failure
offline_fault = refl

run_recovery-heals_example :
    let r = (run_recovery accepting settings waiting).1 in
    (r.files recovery_key ≡ none)
    × (r.files recovery_cert ≡ none)
    × (r.files live_key ≡ some (key_pem 1))
    × (r.files live_cert ≡ some (cert_pem old_cert))
    × ((state_of r).recovery ≡ none)
    × ((state_of r).cert_fault_streak ≡ none)
    × ((state_of r).cert_fault_since ≡ none)
    × ((state_of r).pending_addition ≡ none)
    × ((state_of r).pending_removal ≡ none)
run_recovery-heals_example =
    run_recovery-heals accepting settings old_pair waiting refl
      (record { key_file = refl; cert_file = refl }) refl refl (λ call h. refl) (codes "token")
      (record { thumbprint = fresh_digest; generated_at = 1 }) refl refl

refused_definitively : is_definitive (mint_failed (some 401) (codes "AADSTS700027")) ≡ true
unfolding classify_token_failure lower_char
refused_definitively = refl

refused_at : (streak : ℕ) → IsFaulted dead settings old_pair (counted streak)
refused_at streak = record {
  live = record { key_file = refl; cert_file = refl };
  closer = refl;
  refusal = refused_definitively;
  idle = refl;
}

early_at_2 : is_early_pass dead settings old_pair (counted 2) ≡ true
unfolding too_early
early_at_2 = refl

run_recovery-generates_example :
    let r = (run_recovery dead settings (counted 5)).1 in
    (r.files recovery_key ≡ some (key_pem 2))
    × (r.files recovery_cert ≡ some (cert_pem (certificate_for dead settings 2 fresh_digest noon)))
    × (r.files live_key ≡ some (key_pem 1))
    × (r.files live_cert ≡ some (cert_pem old_cert))
    × (standby_thumbprint (state_of r).recovery ≡ some fresh_digest)
run_recovery-generates_example =
    run_recovery-generates dead settings refl refl (λ call h. refl) old_pair (counted 5)
      (refused_at 5) 5 1 refl refl (omega arith) (omega arith) (omega arith)

is_dead : IsDead dead settings 0
is_dead = record {
  refuses = λ request h. refused_definitively;
  stale = λ h. refl;
  long = λ h. omega arith;
}

run_recovery-within_example : standby_within dead settings 4 (counted 2) ≡ true
run_recovery-within_example =
    run_recovery-within dead settings refl refl (λ call h. refl) old_pair 0 is_dead 3 2 (counted 2)
      (record {
        live = record { key_file = refl; cert_file = refl };
        idle = refl;
        counted = refl;
        first = refl;
      })
      (omega arith)

run_recovery-stale_example :
    let once = (run_recovery healthy settings (counted 2)).1 in
    let twice = (run_recovery healthy settings once).1 in
    ((state_of once).cert_fault_streak ≡ none)
    × ((state_of once).cert_fault_since ≡ some 1)
    × ((state_of twice).cert_fault_since ≡ none)
run_recovery-stale_example =
    run_recovery-stale healthy settings 2 1 (counted 2) refl refl (λ call h. refl) (λ h. refl) refl
      refl refl
