-- ===== src/Rotation/Costs.antt =====
-- How long a run of the rotation waits, and how many requests it makes.
pub mod Whole
use postfix_m365_relay.Base.{
  ℤ, zero, some, true, Option, arith, suc, String, false, none, Bool, Text, ◌+◌, ◌*◌, ℕ,
}
use postfix_m365_relay.Machine.Types.{
  live_cert, live_key, PendingAddition, PendingRemoval, outlook, get_app, graph_default, raised, ok,
  State, Outcome, Config, Services,
}
use postfix_m365_relay.Machine.Costs.{
  read_state-Costs, write_state-Costs, load-Costs, clock-Costs, refresh-Costs,
  send_proof_message-Costs, upstream_port-Costs, Costs-if, Costs-lift, sleep-Costs, free_actions,
  token-Costs, graph-Costs, log-Costs, Costs-within, Costs-attempt, proof-Costs, Costs-pure,
  Costs-free, Costs-bind, Costs, times,
}
use postfix_m365_relay.Rotation.Removal.{
  remove_key, key_absent, confirm_gone, remove_with, on_token,
}
use postfix_m365_relay.Rotation.Steps.{
  added_key, stage_certificate, schedule, carry_through, add_key, after_wait, announce,
  schedule_removal, swap_pairs, adopt, after_proof, after_token, retry_token, key_visible,
  unlink_staged, abandoned, abandon, await_replication, prove_token,
}
use postfix_m365_relay.Machine.Files.{Pair}
use postfix_m365_relay.Machine.Exec.{pure, ◌>>◌, Exec}
use postfix_m365_relay.Rotation.Run.{
  is_early, rotate_due, after_settling, run_rotation, rotate_if_due, rotate_to, with_recipient,
}
use postfix_m365_relay.Rotation.Housekeeping.{
  after_retirement, settle_pending, retire_pending, settle_addition, after_cleanup, retire_old,
}
use postfix_m365_relay.Machine.Actions.{log}
use postfix_m365_relay.Credential.Owner.{is_empty}

module _ (a b : ℕ) where
  -- One round of a wait for Graph, a removal, and a rotation; a second of waiting costs `a`, and a
  -- request `b`.
  abbrev pub round_cost : ℕ
  round_cost = a * 5 + b

  abbrev pub removal_cost : ℕ
  removal_cost = b + (b + times 12 round_cost)

  abbrev pub proof_cost : ℕ → ℕ
  proof_cost n = times n (b + a * 30)

  abbrev pub after_wait_cost : ℕ
  after_wait_cost = proof_cost 20 + (b + removal_cost)

  abbrev pub rotation_cost : ℕ
  rotation_cost = b + (b + (times 24 round_cost + after_wait_cost))

module _ {a b : ℕ} (svc : Services) (cfg : Config) where
  confirm_gone-Costs :
      (key_id bearer : Text) (n : ℕ)
      → Costs a b (times n (round_cost a b)) (confirm_gone svc cfg key_id bearer n)
  unfolding confirm_gone
  confirm_gone-Costs key_id bearer zero = Costs-pure false
  confirm_gone-Costs key_id bearer (suc n) =
      let ih : Costs a b (times n (round_cost a b)) (confirm_gone svc cfg key_id bearer n) =
        confirm_gone-Costs key_id bearer n in
      Costs-within _
        (Costs-bind (sleep-Costs svc cfg 5) λ _.
          Costs-bind (graph-Costs svc cfg get_app bearer) λ reply.
            Costs-free (Costs-lift (key_absent key_id reply))
              λ gone. Costs-if gone (Costs-within _ (Costs-pure true) (omega arith)) ih)
        (omega arith)

  remove_with-Costs :
      (current : Pair) (key_id bearer : Text)
      → Costs a b (b + times 12 (round_cost a b)) (remove_with svc cfg current key_id bearer)
  unfolding remove_with
  remove_with-Costs current key_id bearer = Costs-free (proof-Costs svc cfg current) λ assertion.
      Costs-bind (graph-Costs svc cfg _ bearer) λ (status, result).
        Costs-free (Costs-lift _) λ gone.
          Costs-if _ (Costs-within _ (Costs-pure false) (omega arith))
            (confirm_gone-Costs key_id bearer 12)

  on_token-Costs :
      (current : Pair) (key_id : Text) (r : Outcome Text)
      → Costs a b (b + times 12 (round_cost a b)) (on_token svc cfg current key_id r)
  unfolding on_token
  on_token-Costs current key_id (ok bearer) = remove_with-Costs current key_id bearer
  on_token-Costs current key_id (raised e) = Costs-within _ (Costs-pure false) (omega arith)

  pub remove_key-Costs :
      (current : Pair) (key_id : Text)
      → Costs a b (removal_cost a b) (remove_key svc cfg current key_id)
  unfolding remove_key
  remove_key-Costs current key_id =
      Costs-bind (Costs-attempt (token-Costs svc cfg graph_default current))
        λ bearer. on_token-Costs current key_id bearer

  pub await_replication-Costs :
      (added bearer : Text) (n : ℕ)
      → Costs a b (times n (round_cost a b)) (await_replication svc cfg added bearer n)
  unfolding await_replication
  await_replication-Costs added bearer zero = Costs-pure false
  await_replication-Costs added bearer (suc n) =
      let ih : Costs a b (times n (round_cost a b)) (await_replication svc cfg added bearer n) =
        await_replication-Costs added bearer n in
      Costs-within _
        (Costs-bind (sleep-Costs svc cfg 5) λ _.
          Costs-bind (graph-Costs svc cfg get_app bearer) λ reply.
            Costs-free (Costs-lift (key_visible added reply)) λ visible.
              Costs-if visible
                (Costs-within _ (Costs-free (log-Costs svc cfg _ _) λ _. Costs-pure true)
                  (omega arith))
                ih)
        (omega arith)

  pub prove_token-Costs :
      (fresh : Pair) (first : Bool) (n : ℕ)
      → Costs a b (proof_cost a b n) (prove_token svc cfg fresh first n)
  unfolding prove_token
  prove_token-Costs fresh first zero = Costs-pure none
  prove_token-Costs fresh first (suc n) =
      Costs-within _
        (Costs-bind (Costs-attempt (token-Costs svc cfg outlook fresh)) λ answer.
          retried answer (prove_token svc cfg fresh false n) (prove_token-Costs fresh false n))
        (omega arith)
    where
      retried :
          (r : Outcome Text) (again : Exec (Option Text))
          → Costs a b (proof_cost a b n) again
          → Costs a b (a * 30 + proof_cost a b n) (retry_token svc cfg again first r)
      retried (ok bearer) again c =
          Costs-within _ (Costs-free (log-Costs svc cfg _ _) λ _. Costs-pure (some bearer))
            (omega arith)
      retried (raised e) again c =
          Costs-free (Costs-if first (log-Costs svc cfg _ _) (Costs-pure tt))
            λ _. Costs-bind (sleep-Costs svc cfg 30) λ _. c

  pub abandon-Costs :
      (current : Pair) (state : State) (added : Text) (step : String)
      → Costs a b (removal_cost a b) (abandon svc cfg current state added step)
  unfolding abandon abandoned unlink_staged
  abandon-Costs current state added step = Costs-free (log-Costs svc cfg step "FAILED") λ _.
      Costs-within _
        (Costs-bind {k = 0} (remove_key-Costs current added)
          λ removed. search free_actions depth 12)
        (omega arith)
