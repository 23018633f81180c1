-- ===== src/Rotation/Housekeeping.antt =====
-- The first part of every run: a key of an unfinished rotation is settled, and an old key whose grace
-- period is over is retired.
use postfix_m365_relay.Base.{
  neg_part, pos_part, ℤ, ℕ, ◌+◌, ◌*◌, Bool, Option, none, some, leb, same, if◌then◌else◌,
}
use postfix_m365_relay.Machine.Types.{
  Certificate, PendingAddition, PendingRemoval, State, Services, Config,
}
use postfix_m365_relay.Machine.Exec.{Exec, pure, ◌>>=◌, ◌>>◌}
use postfix_m365_relay.Machine.Files.{Pair}
use postfix_m365_relay.Machine.Actions.{clock, log, write_state, second, day}
use postfix_m365_relay.Rotation.Removal.{remove_key}

-- Does the crash record name the certificate that is live on disk?
unfoldable pub pending_addition_is_live : PendingAddition → Certificate → Bool
pending_addition_is_live pending cert = same pending.thumbprint cert.digest

abbrev pub without_addition : State → State
without_addition state = record state { pending_addition = none }

abbrev pub without_removal : State → State
without_removal state = record state { pending_removal = none }

-- `age_days >= args.grace_days`, over whole microseconds
unfoldable pub grace_is_over : ℕ → PendingRemoval → ℤ → Bool
grace_is_over now pending grace_days =
    leb (pending.rotated_at * second + pos_part grace_days * day) (now + neg_part grace_days * day)

module _ (svc : Services) (cfg : Config) where
  unfoldable pub after_cleanup : State → Bool → Exec (Option State)
  after_cleanup state removed =
      if removed
      then (do
        log svc cfg "cleanup-added-key" "ok"
        write_state svc cfg (without_addition state)
        pure (some (without_addition state)))
      else (do log svc cfg "cleanup-added-key" "FAILED"; pure none)

  unfoldable pub settle_pending : Pair → State → Option PendingAddition → Exec (Option State)
  settle_pending current state none = pure (some state)
  settle_pending current state (some pending) =
      if pending_addition_is_live pending current.cert
      then (do
        log svc cfg "cleanup-added-key" "ok"
        write_state svc cfg (without_addition state)
        pure (some (without_addition state)))
      else (do removed ← remove_key svc cfg current pending.key_id; after_cleanup state removed)

  -- `none` ends the run with status 1.
  unfoldable pub settle_addition : Pair → State → Exec (Option State)
  unfolding settle_pending after_cleanup
  settle_addition current state =
      if cfg.dry_run then pure (some state) else settle_pending current state state.pending_addition

  unfoldable pub after_retirement : State → Bool → Exec State
  after_retirement state removed =
      if removed
      then (do
        log svc cfg "retire-old-key" "ok"
        write_state svc cfg (without_removal state)
        pure (without_removal state))
      else (do log svc cfg "retire-old-key" "FAILED"; pure state)

  unfoldable pub retire_pending : Pair → State → Option PendingRemoval → Exec State
  retire_pending current state none = pure state
  retire_pending current state (some pending) = do
    now ← clock svc cfg
    if grace_is_over now pending cfg.grace_days
        then (do
          removed ← remove_key svc cfg current pending.key_id
          after_retirement state removed)
        else (do log svc cfg "retire-old-key" "waiting"; pure state)

  unfoldable pub retire_old : Pair → State → Exec State
  unfolding retire_pending after_retirement
  retire_old current state =
      if cfg.dry_run then pure state else retire_pending current state state.pending_removal
