-- ===== src/Recovery/Costs.antt =====
-- How many requests a pass of the recovery makes; it never waits.
use postfix_m365_relay.Base.{not, none, true, arith, some, ◌+◌, Text, String, Option, ℕ}
use postfix_m365_relay.Machine.Exec.{pure, ◌>>◌}
use postfix_m365_relay.Machine.Types.{
  recovery_cert, live_cert, get_app, live_key, recovery_key, graph_default, outlook, raised, ok,
  Standby, Outcome, State, Config, Services,
}
use postfix_m365_relay.Recovery.Standby.{
  mint_of, minted_ok, mint_failed, Mint, standby_files, discard_standby, live_files, on_standby,
  generate_standby, swap_standby, standby_proof, scheduled, on_standby_mint, adopt_standby,
  try_mint, schedule_old, advance_standby, or_unscheduled, prove_standby,
}
use postfix_m365_relay.Recovery.Run.{
  too_early, store_cleared, clear_streak, on_live, token_is_fresh, on_fault, decide, examine,
  on_healed, on_live_mint, run_recovery, count_fault, settle_streak, on_cert_fault,
}
use postfix_m365_relay.Machine.Files.{Pair}
use postfix_m365_relay.Machine.Costs.{
  Costs-lift, send_proof_message-Costs, graph-Costs, upstream_port-Costs, cert_action-Costs,
  load-Costs, read_state-Costs, Costs-attempt, token-Costs, write_state-Costs, log-Costs,
  Costs-gets, Costs-bind, clock-Costs, Costs-pure, free_actions, Costs-within, Costs-free, times,
  Costs-if, Costs,
}
use postfix_m365_relay.Machine.Actions.{log}
use postfix_m365_relay.Credential.Failure.{unknown, scope, cert_fault, transient, Fault}
use postfix_m365_relay.Credential.Thumbprint.{Credential}
use postfix_m365_relay.Credential.Owner.{is_empty}

module _ {a b : ℕ} (svc : Services) (cfg : Config) where
  try_mint-Costs : (pair : Pair) → Costs a b b (try_mint svc cfg pair)
  unfolding try_mint
  try_mint-Costs pair =
      Costs-within _
        (Costs-bind {k = 0} (Costs-attempt (token-Costs svc cfg outlook pair))
          λ answer. Costs-pure (mint_of answer))
        (omega arith)

  generate_standby-Costs : Costs a b 0 (generate_standby svc cfg)
  unfolding generate_standby
  generate_standby-Costs = search free_actions depth 15

  scheduled-Costs :
      (state : State) (old : Text) (key : Option Credential)
      → Costs a b 0 (scheduled svc cfg state old key)
  unfolding scheduled
  scheduled-Costs state old none = Costs-pure state
  scheduled-Costs state old (some key) = search free_actions depth 9

  schedule_old-Costs :
      (standby : Pair) (old : Text) (state : State)
      → Costs a b (b + b) (schedule_old svc cfg standby old state)
  unfolding schedule_old
  schedule_old-Costs standby old state =
      Costs-bind (token-Costs svc cfg graph_default standby) λ bearer.
        Costs-within _
          (Costs-bind {k = 0} (graph-Costs svc cfg get_app bearer)
            λ (status, body). Costs-free (Costs-lift _) λ key. scheduled-Costs state old key)
          (omega arith)

  or_unscheduled-Costs :
      (state : State) (r : Outcome State) → Costs a b 0 (or_unscheduled svc cfg state r)
  unfolding or_unscheduled
  or_unscheduled-Costs state (ok state') = Costs-pure state'
  or_unscheduled-Costs state (raised e) = search free_actions depth 9

  swap_standby-Costs : Costs a b 0 swap_standby
  unfolding swap_standby
  swap_standby-Costs = search free_actions depth 12

  adopt_standby-Costs :
      (current standby : Pair) (state : State)
      → Costs a b (b + b) (adopt_standby svc cfg current standby state)
  unfolding adopt_standby
  adopt_standby-Costs current standby state = Costs-free swap_standby-Costs λ _.
      Costs-free (log-Costs svc cfg "recover" "ok") λ _.
        Costs-within _
          (Costs-bind {k = 0} (Costs-attempt (schedule_old-Costs standby _ _)) λ answer.
            Costs-free (or_unscheduled-Costs _ answer) λ state'. search free_actions depth 12)
          (omega arith)

  prove_standby-Costs :
      (standby : Pair) (recipient : Text)
      → Costs a b (b + b) (prove_standby svc cfg standby recipient)
  unfolding prove_standby
  prove_standby-Costs standby recipient = Costs-bind (token-Costs svc cfg outlook standby) λ bearer.
      Costs-free (upstream_port-Costs svc cfg)
        λ port. send_proof_message-Costs svc cfg bearer recipient standby.cert.digest

  standby_proof-Costs :
      (standby : Pair) (to : Option Text) → Costs a b (b + b) (standby_proof svc cfg standby to)
  unfolding standby_proof
  standby_proof-Costs standby none =
      Costs-within _ (Costs-free (log-Costs svc cfg _ _) λ _. Costs-pure true) (omega arith)
  standby_proof-Costs standby (some to) =
      Costs-if (is_empty to)
        (Costs-within _ (Costs-free (log-Costs svc cfg _ _) λ _. Costs-pure true) (omega arith))
        (Costs-within _
          (Costs-bind {k = 0} (Costs-attempt (prove_standby-Costs standby to))
            λ sent. search free_actions depth 9)
          (omega arith))

  on_standby_mint-Costs :
      (current standby : Pair) (state : State) (mint : Mint)
      → Costs a b (b + b + (b + b)) (on_standby_mint svc cfg current standby state mint)
  unfolding on_standby_mint
  on_standby_mint-Costs current standby state minted_ok =
      Costs-bind (standby_proof-Costs standby cfg.recipient) λ proven.
        Costs-if proven (adopt_standby-Costs current standby state)
          (Costs-within _ (Costs-pure 0) (omega arith))
  on_standby_mint-Costs current standby state (mint_failed status body) =
      Costs-within _
        (Costs-free (log-Costs svc cfg _ _)
          λ _. Costs-free (cert_action-Costs svc cfg _) λ _. Costs-pure 0)
        (omega arith)

  on_standby-Costs :
      (current : Pair) (state : State) (r : Outcome Pair)
      → Costs a b (times 5 b) (on_standby svc cfg current state r)
  unfolding on_standby
  on_standby-Costs current state (raised e) =
      Costs-within _ (Costs-free (log-Costs svc cfg _ _) λ _. Costs-pure 0) (omega arith)
  on_standby-Costs current state (ok standby) =
      Costs-within _
        (Costs-bind (try_mint-Costs standby)
          λ mint. on_standby_mint-Costs current standby state mint)
        (omega arith)

  noting-Costs :
      (k : ℕ) (outcome : String) → Costs a b {A = ℕ} k (log svc cfg "recover" outcome >> pure 0)
  noting-Costs k outcome =
      Costs-within k (Costs-free (log-Costs svc cfg "recover" outcome) λ _. Costs-pure 0)
        (omega arith)

  advance_standby-Costs :
      (current : Pair) (state : State)
      → Costs a b (times 5 b) (advance_standby svc cfg current state)
  unfolding advance_standby standby_files
  advance_standby-Costs current state = Costs-free (Costs-gets _) λ there.
      Costs-if (not there) (Costs-free (write_state-Costs svc cfg _) λ _. noting-Costs _ "note") (
        Costs-free (Costs-attempt (load-Costs recovery_key recovery_cert))
          λ standby. on_standby-Costs current state standby)

  decide-Costs : (streak since now : ℕ) → Costs a b 0 (decide svc cfg streak since now)
  unfolding decide
  decide-Costs streak since now =
      Costs-if (too_early svc cfg streak since now) (noting-Costs 0 "waiting")
        generate_standby-Costs

  count_fault-Costs : (state : State) → Costs a b 0 (count_fault svc cfg state)
  unfolding count_fault
  count_fault-Costs state = Costs-free (clock-Costs svc cfg) λ now.
      Costs-free (write_state-Costs svc cfg _)
        λ _. Costs-free (clock-Costs svc cfg) λ later. decide-Costs _ _ _

  on_cert_fault-Costs :
      (current : Pair) (state : State) (standby : Option Standby)
      → Costs a b (times 5 b) (on_cert_fault svc cfg current state standby)
  unfolding on_cert_fault
  on_cert_fault-Costs current state none = Costs-within _ (count_fault-Costs state) (omega arith)
  on_cert_fault-Costs current state (some standby) = advance_standby-Costs current state

  on_fault-Costs :
      (current : Pair) (state : State) (fault : Fault)
      → Costs a b (times 5 b) (on_fault svc cfg current state fault)
  unfolding on_fault
  on_fault-Costs current state transient = noting-Costs _ "waiting"
  on_fault-Costs current state cert_fault = on_cert_fault-Costs current state state.recovery
  on_fault-Costs current state scope = noting-Costs _ "note"
  on_fault-Costs current state unknown = noting-Costs _ "waiting"

  store_cleared-Costs : (o : Option State) → Costs a b 0 (store_cleared svc cfg o)
  store_cleared-Costs none = Costs-pure 0
  store_cleared-Costs (some state) = Costs-free (write_state-Costs svc cfg state) λ _. Costs-pure 0

  settle_streak-Costs : (state : State) → Costs a b 0 (settle_streak svc cfg state)
  unfolding settle_streak
  settle_streak-Costs state = store_cleared-Costs (clear_streak state)

  on_healed-Costs :
      (state : State) (standby : Option Standby) → Costs a b 0 (on_healed svc cfg state standby)
  unfolding on_healed discard_standby
  on_healed-Costs state none = settle_streak-Costs state
  on_healed-Costs state (some standby) = search free_actions depth 15

  on_live_mint-Costs :
      (current : Pair) (state : State) (mint : Mint)
      → Costs a b (times 5 b) (on_live_mint svc cfg current state mint)
  unfolding on_live_mint
  on_live_mint-Costs current state minted_ok =
      Costs-within _ (on_healed-Costs state state.recovery) (omega arith)
  on_live_mint-Costs current state (mint_failed status body) =
      Costs-free (clock-Costs svc cfg) λ now. on_fault-Costs current state _

  on_live-Costs :
      (state : State) (r : Outcome Pair) → Costs a b (times 6 b) (on_live svc cfg state r)
  unfolding on_live
  on_live-Costs state (raised e) = noting-Costs _ "note"
  on_live-Costs state (ok current) =
      Costs-bind (try_mint-Costs current) λ mint. on_live_mint-Costs current state mint

  examine-Costs : (state : State) → Costs a b (times 6 b) (examine svc cfg state)
  unfolding examine live_files
  examine-Costs state = Costs-free (Costs-gets _) λ there.
      Costs-if (not there) (noting-Costs _ "note") (
        Costs-free (Costs-attempt (load-Costs live_key live_cert))
          λ current. on_live-Costs state current)

  pub run_recovery-Costs : Costs a b (times 6 b) (run_recovery svc cfg)
  unfolding run_recovery token_is_fresh
  run_recovery-Costs = Costs-if _ (Costs-within _ (Costs-pure 0) (omega arith)) (
      Costs-free read_state-Costs λ state. Costs-free (Costs-gets _) λ fresh.
        Costs-if _ (Costs-within _ (settle_streak-Costs state) (omega arith)) (examine-Costs state))
