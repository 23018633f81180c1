-- ===== src/Rotation/Run.antt =====
-- One run of the rotation, from the load of the live pair to the exit status.
use postfix_m365_relay.Base.{
  ℕ, Bool, not, ◌&&◌, Option, none, some, if◌then◌else◌, Text, ℤ, pos, ltb_ℤ,
}
use postfix_m365_relay.Credential.Owner.{is_empty}
use postfix_m365_relay.Machine.Types.{graph_default, live_key, live_cert, Services, Config, State}
use postfix_m365_relay.Machine.Exec.{Exec, pure, ◌>>=◌, ◌>>◌}
use postfix_m365_relay.Machine.Files.{Pair, load}
use postfix_m365_relay.Machine.Actions.{clock, log, token, read_state, days_remaining}
use postfix_m365_relay.Rotation.Housekeeping.{settle_addition, retire_old}
use postfix_m365_relay.Rotation.Steps.{stage_certificate, add_key, carry_through}

module _ (svc : Services) (cfg : Config) where
  unfoldable pub rotate_to : Pair → State → Text → Exec ℕ
  rotate_to current state recipient = do
    fresh ← stage_certificate svc cfg
    bearer ← token svc cfg graph_default current
    added ← add_key svc cfg current fresh bearer
    carry_through svc cfg current fresh state recipient bearer added

  -- `if not recipient`
  unfoldable pub with_recipient : Pair → State → Option Text → Exec ℕ
  with_recipient current state none = do log svc cfg "prove-send" "FAILED"; pure 1
  with_recipient current state (some recipient) =
      if is_empty recipient
      then (do log svc cfg "prove-send" "FAILED"; pure 1)
      else rotate_to current state recipient

  unfoldable pub rotate_due : Pair → State → ℤ → Exec ℕ
  rotate_due current state remaining = do
    log svc cfg "check-expiry" "due"
    if not (ltb_ℤ (pos 0) remaining)
        then (do log svc cfg "check-expiry" "FAILED"; pure 1)
        else if cfg.dry_run
        then (do log svc cfg "dry-run" "ok"; pure 0)
        else with_recipient current state cfg.recipient

  -- `if remaining > args.renew_at and not args.force`
  abbrev pub is_early : ℤ → Bool
  is_early remaining = ltb_ℤ cfg.renew_at remaining && not cfg.force

  unfoldable pub rotate_if_due : Pair → State → ℤ → Exec ℕ
  unfolding rotate_due with_recipient rotate_to
  rotate_if_due current state remaining =
      if is_early remaining
      then (do log svc cfg "check-expiry" "ok"; pure 0)
      else rotate_due current state remaining

  unfoldable pub after_settling : Pair → ℤ → Option State → Exec ℕ
  after_settling current remaining none = pure 1
  after_settling current remaining (some state) = do
    state' ← retire_old svc cfg current state
    rotate_if_due current state' remaining

  -- The run with neither --list-keys, --remove-key, --reset nor --recover.
  unfoldable pub run_rotation : Exec ℕ
  unfolding after_settling
  run_rotation = do
    current ← load live_key live_cert
    now ← clock svc cfg
    state ← read_state
    settled ← settle_addition svc cfg current state
    after_settling current (days_remaining current.cert now) settled
