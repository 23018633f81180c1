-- ===== src/Rotation/Costs/Whole.antt =====
-- How long a run of the rotation waits, and how many requests it makes: the whole run.
use postfix_m365_relay.Base.{ℤ, some, true, Option, arith, String, none, Bool, Text, ◌+◌, ℕ}
use postfix_m365_relay.Machine.Types.{
  live_cert, live_key, PendingAddition, PendingRemoval, get_app, graph_default, State, Config,
  Services,
}
use postfix_m365_relay.Machine.Costs.{
  read_state-Costs, write_state-Costs, load-Costs, clock-Costs, refresh-Costs,
  send_proof_message-Costs, upstream_port-Costs, Costs-if, free_actions, token-Costs, graph-Costs,
  log-Costs, Costs-within, proof-Costs, Costs-pure, Costs-free, Costs-bind, Costs, times,
}
use postfix_m365_relay.Rotation.Steps.{
  added_key, stage_certificate, schedule, carry_through, add_key, after_wait, announce,
  schedule_removal, swap_pairs, adopt, after_proof, after_token, unlink_staged,
}
use postfix_m365_relay.Machine.Files.{Pair}
use postfix_m365_relay.Machine.Exec.{pure, ◌>>◌}
use postfix_m365_relay.Rotation.Run.{
  is_early, rotate_due, after_settling, run_rotation, rotate_if_due, rotate_to, with_recipient,
}
use postfix_m365_relay.Rotation.Housekeeping.{
  after_retirement, settle_pending, retire_pending, settle_addition, after_cleanup, retire_old,
}
use postfix_m365_relay.Machine.Actions.{log}
use postfix_m365_relay.Credential.Owner.{is_empty}
use postfix_m365_relay.Rotation.Costs.{
  remove_key-Costs, prove_token-Costs, abandon-Costs, await_replication-Costs, round_cost,
  rotation_cost, removal_cost, after_wait_cost,
}

module _ {a b : ℕ} (svc : Services) (cfg : Config) where
  swap_pairs-Costs : Costs a b 0 swap_pairs
  unfolding swap_pairs
  swap_pairs-Costs = search free_actions depth 12

  schedule-Costs :
      (current : Pair) (state : State) (now : ℕ) (old : Option Text)
      → Costs a b 0 (schedule svc cfg current state now old)
  unfolding schedule
  schedule-Costs current state now none = search free_actions depth 9
  schedule-Costs current state now (some k) = search free_actions depth 9

  schedule_removal-Costs :
      (current : Pair) (state : State) (added bearer : Text)
      → Costs a b b (schedule_removal svc cfg current state added bearer)
  unfolding schedule_removal
  schedule_removal-Costs current state added bearer =
      Costs-within _
        (Costs-bind {k = 0} (graph-Costs svc cfg get_app bearer)
          λ reply. search (free_actions, schedule-Costs) depth 12)
        (omega arith)

  announce-Costs : (refreshed : Bool) → Costs a b 0 (announce svc cfg refreshed)
  unfolding announce
  announce-Costs refreshed = search free_actions depth 9

  adopt-Costs :
      (current : Pair) (state : State) (added bearer : Text)
      → Costs a b b (adopt svc cfg current state added bearer)
  unfolding adopt
  adopt-Costs current state added bearer = Costs-free swap_pairs-Costs λ _.
      Costs-free (log-Costs svc cfg "swap" "ok") λ _.
        Costs-within _
          (Costs-bind {k = 0} (schedule_removal-Costs current _ added bearer)
            λ _. Costs-free (refresh-Costs svc cfg) λ refreshed. announce-Costs refreshed)
          (omega arith)

  after_proof-Costs :
      (current : Pair) (state : State) (added bearer : Text) (sent : Bool)
      → Costs a b (removal_cost a b) (after_proof svc cfg current state added bearer sent)
  unfolding after_proof
  after_proof-Costs current state added bearer sent =
      Costs-if sent
        (Costs-free (log-Costs svc cfg "prove-send" "ok")
          λ _. Costs-within _ (adopt-Costs current state added bearer) (omega arith))
        (abandon-Costs svc cfg current state added "prove-send")

  after_token-Costs :
      (current fresh : Pair) (state : State) (recipient added bearer : Text) (t : Option Text)
      → Costs a b
          (b + removal_cost a b)
          (after_token svc cfg current fresh state recipient added bearer t)
  unfolding after_token
  after_token-Costs current fresh state recipient added bearer none =
      Costs-within _ (abandon-Costs svc cfg current state added "prove-token") (omega arith)
  after_token-Costs current fresh state recipient added bearer (some t) =
      Costs-free (upstream_port-Costs svc cfg) λ port.
        Costs-bind (send_proof_message-Costs svc cfg t recipient fresh.cert.digest)
          λ sent. after_proof-Costs current state added bearer sent

  after_wait-Costs :
      (current fresh : Pair) (state : State) (recipient added bearer : Text) (visible : Bool)
      → Costs a b
          (after_wait_cost a b)
          (after_wait svc cfg current fresh state recipient added bearer visible)
  unfolding after_wait
  after_wait-Costs current fresh state recipient added bearer visible =
      Costs-if visible
        (Costs-bind (prove_token-Costs svc cfg fresh true 20)
          λ t. after_token-Costs current fresh state recipient added bearer t)
        (Costs-within _ (abandon-Costs svc cfg current state added "await-replication")
          (omega arith))

  carry_through-Costs :
      (current fresh : Pair) (state : State) (recipient bearer : Text) (added : Option Text)
      → Costs a b
          (times 24 (round_cost a b) + after_wait_cost a b)
          (carry_through svc cfg current fresh state recipient bearer added)
  unfolding carry_through
  carry_through-Costs current fresh state recipient bearer none =
      Costs-within _ (Costs-pure 1) (omega arith)
  carry_through-Costs current fresh state recipient bearer (some added) =
      Costs-free (clock-Costs svc cfg) λ now. Costs-free (write_state-Costs svc cfg _) λ _.
        Costs-bind (await_replication-Costs svc cfg added bearer 24)
          λ visible. after_wait-Costs current fresh _ recipient added bearer visible

  stage_certificate-Costs : Costs a b 0 (stage_certificate svc cfg)
  unfolding stage_certificate
  stage_certificate-Costs = search free_actions depth 12

  add_key-Costs :
      (current fresh : Pair) (bearer : Text) → Costs a b b (add_key svc cfg current fresh bearer)
  unfolding add_key added_key unlink_staged
  add_key-Costs current fresh bearer = Costs-free (proof-Costs svc cfg current) λ assertion.
      Costs-within _
        (Costs-bind {k = 0} (graph-Costs svc cfg _ bearer)
          λ (status, result). search free_actions depth 12)
        (omega arith)

  rotate_to-Costs :
      (current : Pair) (state : State) (recipient : Text)
      → Costs a b (rotation_cost a b) (rotate_to svc cfg current state recipient)
  unfolding rotate_to
  rotate_to-Costs current state recipient = Costs-free stage_certificate-Costs λ fresh.
      Costs-bind (token-Costs svc cfg graph_default current) λ bearer.
        Costs-bind (add_key-Costs current fresh bearer)
          λ added. carry_through-Costs current fresh state recipient bearer added

  refusal-Costs :
      (k : ℕ) (step : String) → Costs a b {A = ℕ} k (log svc cfg step "FAILED" >> pure 1)
  refusal-Costs k step =
      Costs-within k (Costs-free (log-Costs svc cfg step "FAILED") λ _. Costs-pure 1) (omega arith)

  with_recipient-Costs :
      (current : Pair) (state : State) (to : Option Text)
      → Costs a b (rotation_cost a b) (with_recipient svc cfg current state to)
  unfolding with_recipient
  with_recipient-Costs current state none = refusal-Costs _ "prove-send"
  with_recipient-Costs current state (some to) =
      Costs-if (is_empty to) (refusal-Costs _ "prove-send") (rotate_to-Costs current state to)

  done-Costs : (k : ℕ) (step : String) → Costs a b {A = ℕ} k (log svc cfg step "ok" >> pure 0)
  done-Costs k step =
      Costs-within k (Costs-free (log-Costs svc cfg step "ok") λ _. Costs-pure 0) (omega arith)

  rotate_if_due-Costs :
      (current : Pair) (state : State) (remaining : ℤ)
      → Costs a b (rotation_cost a b) (rotate_if_due svc cfg current state remaining)
  unfolding rotate_if_due rotate_due
  rotate_if_due-Costs current state remaining =
      Costs-if (is_early svc cfg remaining) (done-Costs _ "check-expiry") (
        Costs-free (log-Costs svc cfg "check-expiry" "due") λ _.
          Costs-if _ (refusal-Costs _ "check-expiry") (
            Costs-if cfg.dry_run (done-Costs _ "dry-run")
              (with_recipient-Costs current state cfg.recipient)))

  after_retirement-Costs :
      (state : State) (removed : Bool) → Costs a b 0 (after_retirement svc cfg state removed)
  unfolding after_retirement
  after_retirement-Costs state removed = search free_actions depth 9

  retire_pending-Costs :
      (current : Pair) (state : State) (pending : Option PendingRemoval)
      → Costs a b (removal_cost a b) (retire_pending svc cfg current state pending)
  unfolding retire_pending
  retire_pending-Costs current state none = Costs-within _ (Costs-pure state) (omega arith)
  retire_pending-Costs current state (some pending) = Costs-free (clock-Costs svc cfg) λ now.
      Costs-if _
        (Costs-within _
          (Costs-bind {k = 0} (remove_key-Costs svc cfg current pending.key_id)
            λ removed. after_retirement-Costs state removed)
          (omega arith))
        (Costs-within _
          (Costs-free (log-Costs svc cfg "retire-old-key" "waiting") λ _. Costs-pure state)
          (omega arith))

  after_cleanup-Costs :
      (state : State) (removed : Bool) → Costs a b 0 (after_cleanup svc cfg state removed)
  unfolding after_cleanup
  after_cleanup-Costs state removed = search free_actions depth 9

  settle_pending-Costs :
      (current : Pair) (state : State) (pending : Option PendingAddition)
      → Costs a b (removal_cost a b) (settle_pending svc cfg current state pending)
  unfolding settle_pending after_cleanup
  settle_pending-Costs current state none = Costs-within _ (Costs-pure (some state)) (omega arith)
  settle_pending-Costs current state (some pending) =
      Costs-if _ (Costs-within _ (after_cleanup-Costs state true) (omega arith)) (
        Costs-within _
          (Costs-bind {k = 0} (remove_key-Costs svc cfg current pending.key_id)
            λ removed. after_cleanup-Costs state removed)
          (omega arith))

  settle_addition-Costs :
      (current : Pair) (state : State)
      → Costs a b (removal_cost a b) (settle_addition svc cfg current state)
  unfolding settle_addition
  settle_addition-Costs current state =
      Costs-if cfg.dry_run (Costs-within _ (Costs-pure (some state)) (omega arith))
        (settle_pending-Costs current state state.pending_addition)

  retire_old-Costs :
      (current : Pair) (state : State)
      → Costs a b (removal_cost a b) (retire_old svc cfg current state)
  unfolding retire_old
  retire_old-Costs current state =
      Costs-if cfg.dry_run (Costs-within _ (Costs-pure state) (omega arith))
        (retire_pending-Costs current state state.pending_removal)

  after_settling-Costs :
      (current : Pair) (remaining : ℤ) (settled : Option State)
      → Costs a b
          (removal_cost a b + rotation_cost a b)
          (after_settling svc cfg current remaining settled)
  unfolding after_settling
  after_settling-Costs current remaining none = Costs-within _ (Costs-pure 1) (omega arith)
  after_settling-Costs current remaining (some state) =
      Costs-bind (retire_old-Costs current state)
        λ state'. rotate_if_due-Costs current state' remaining

  pub run_rotation-Costs :
      Costs a b (removal_cost a b + (removal_cost a b + rotation_cost a b)) (run_rotation svc cfg)
  unfolding run_rotation
  run_rotation-Costs = Costs-free (load-Costs live_key live_cert) λ current.
      Costs-free (clock-Costs svc cfg) λ now. Costs-free read_state-Costs λ state.
        Costs-bind (settle_addition-Costs current state)
          λ settled. after_settling-Costs current _ settled
