-- ===== src/Recovery/Frame.antt =====
-- A whole pass of the recovery, from the steps that write the credential files.
use postfix_m365_relay.Base.{ℕ, none, not, some, Option, Text}
use postfix_m365_relay.Machine.Types.{
  live_cert, recovery_cert, live_key, recovery_key, Standby, raised, ok, Outcome, State, Config,
  Services, Machine,
}
use postfix_m365_relay.Recovery.Run.{
  too_early, clear_streak, store_cleared, token_is_fresh, on_live, decide, count_fault,
  on_cert_fault, on_live_mint, settle_streak, run_recovery, on_fault, examine, on_healed,
}
use postfix_m365_relay.Recovery.Standby.{
  minted_ok, swap_standby, discard_standby, generate_standby, mint_failed, Mint, live_files,
  on_standby, standby_files, standby_proof, try_mint, or_unscheduled, advance_standby,
  prove_standby, schedule_old, adopt_standby, on_standby_mint, scheduled,
}
use postfix_m365_relay.Machine.Keeps.{
  load-Keeps, read_state-Keeps, clock-Keeps, log-Keeps, talk_rules, IsStable,
}
use postfix_m365_relay.Machine.Files.{Pair}
use postfix_m365_relay.Credential.Failure.{unknown, scope, cert_fault, transient, Fault}
use postfix_m365_relay.Machine.Triple.{
  Keeps-attempt, Keeps-gets, Keeps-pure, Keeps-if, Keeps-bind, Keeps,
}
use postfix_m365_relay.Machine.Actions.{write_state}
use postfix_m365_relay.Credential.Thumbprint.{Credential}

-- What a property needs in order to outlast a pass: the steps that may break it.
pub record PassRules (P : Machine → Type 0) (svc : Services) (cfg : Config) : Type 0 where
  pub talks : IsStable P
  pub writes : (state : State) → Keeps P (write_state svc cfg state)
  pub generates : Keeps P (generate_standby svc cfg)
  pub discards : Keeps P discard_standby
  pub swaps : Keeps P swap_standby

module _ {P : Machine → Type 0} (svc : Services) (cfg : Config) (rules : PassRules P svc cfg) where
  try_mint-Keeps : (pair : Pair) → Keeps P (try_mint svc cfg pair)
  unfolding try_mint
  try_mint-Keeps pair = search (talk_rules, rules.talks) depth 9

  scheduled-Keeps :
      (state : State) (old : Text) (key : Option Credential)
      → Keeps P (scheduled svc cfg state old key)
  unfolding scheduled
  scheduled-Keeps state old none = Keeps-pure state
  scheduled-Keeps state old (some key) = search (talk_rules, rules.talks) depth 9

  schedule_old-Keeps :
      (standby : Pair) (old : Text) (state : State)
      → Keeps P (schedule_old svc cfg standby old state)
  unfolding schedule_old
  schedule_old-Keeps standby old state = search (talk_rules, rules.talks, scheduled-Keeps) depth 9

  or_unscheduled-Keeps :
      (state : State) (r : Outcome State) → Keeps P (or_unscheduled svc cfg state r)
  unfolding or_unscheduled
  or_unscheduled-Keeps state (ok state') = Keeps-pure state'
  or_unscheduled-Keeps state (raised e) = search (talk_rules, rules.talks)

  adopt_standby-Keeps :
      (current standby : Pair) (state : State)
      → Keeps P (adopt_standby svc cfg current standby state)
  unfolding adopt_standby
  adopt_standby-Keeps current standby state = Keeps-bind rules.swaps λ _.
      Keeps-bind (log-Keeps rules.talks svc cfg "recover" "ok") λ _.
        Keeps-bind (Keeps-attempt (schedule_old-Keeps standby _ _)) λ answer.
          Keeps-bind (or_unscheduled-Keeps _ answer)
            λ state'. Keeps-bind (rules.writes state') λ _. search (talk_rules, rules.talks) depth 9

  prove_standby-Keeps :
      (standby : Pair) (recipient : Text) → Keeps P (prove_standby svc cfg standby recipient)
  unfolding prove_standby
  prove_standby-Keeps standby recipient = search (talk_rules, rules.talks) depth 9

  standby_proof-Keeps :
      (standby : Pair) (to : Option Text) → Keeps P (standby_proof svc cfg standby to)
  unfolding standby_proof
  standby_proof-Keeps standby none = search (talk_rules, rules.talks)
  standby_proof-Keeps standby (some to) =
      search (talk_rules, rules.talks, prove_standby-Keeps) depth 9

  on_standby_mint-Keeps :
      (current standby : Pair) (state : State) (mint : Mint)
      → Keeps P (on_standby_mint svc cfg current standby state mint)
  unfolding on_standby_mint
  on_standby_mint-Keeps current standby state minted_ok =
      Keeps-bind (standby_proof-Keeps standby cfg.recipient)
        λ proven. Keeps-if proven (adopt_standby-Keeps current standby state) (Keeps-pure 0)
  on_standby_mint-Keeps current standby state (mint_failed status body) =
      search (talk_rules, rules.talks)

  on_standby-Keeps :
      (current : Pair) (state : State) (r : Outcome Pair)
      → Keeps P (on_standby svc cfg current state r)
  unfolding on_standby
  on_standby-Keeps current state (raised e) = search (talk_rules, rules.talks)
  on_standby-Keeps current state (ok standby) =
      Keeps-bind (try_mint-Keeps standby) λ mint. on_standby_mint-Keeps current standby state mint

  advance_standby-Keeps :
      (current : Pair) (state : State) → Keeps P (advance_standby svc cfg current state)
  unfolding advance_standby standby_files
  advance_standby-Keeps current state = Keeps-bind (Keeps-gets _) λ there.
      Keeps-if (not there) (Keeps-bind (rules.writes _) λ _. search (talk_rules, rules.talks)) (
        Keeps-bind (Keeps-attempt (load-Keeps recovery_key recovery_cert))
          λ standby. on_standby-Keeps current state standby)

  decide-Keeps : (streak since now : ℕ) → Keeps P (decide svc cfg streak since now)
  unfolding decide
  decide-Keeps streak since now =
      Keeps-if (too_early svc cfg streak since now) (search (talk_rules, rules.talks))
        rules.generates

  count_fault-Keeps : (state : State) → Keeps P (count_fault svc cfg state)
  unfolding count_fault
  count_fault-Keeps state = Keeps-bind (clock-Keeps svc cfg) λ now.
      Keeps-bind (rules.writes _) λ _. Keeps-bind (clock-Keeps svc cfg) λ later. decide-Keeps _ _ _

  on_cert_fault-Keeps :
      (current : Pair) (state : State) (standby : Option Standby)
      → Keeps P (on_cert_fault svc cfg current state standby)
  unfolding on_cert_fault
  on_cert_fault-Keeps current state none = count_fault-Keeps state
  on_cert_fault-Keeps current state (some standby) = advance_standby-Keeps current state

  on_fault-Keeps :
      (current : Pair) (state : State) (fault : Fault)
      → Keeps P (on_fault svc cfg current state fault)
  unfolding on_fault
  on_fault-Keeps current state transient = search (talk_rules, rules.talks)
  on_fault-Keeps current state cert_fault = on_cert_fault-Keeps current state state.recovery
  on_fault-Keeps current state scope = search (talk_rules, rules.talks)
  on_fault-Keeps current state unknown = search (talk_rules, rules.talks)

  settle_streak-Keeps : (state : State) → Keeps P (settle_streak svc cfg state)
  unfolding settle_streak
  settle_streak-Keeps state = by_parts (clear_streak state)
    where
      by_parts : (o : Option State) → Keeps P (store_cleared svc cfg o)
      by_parts none = Keeps-pure 0
      by_parts (some state') = Keeps-bind (rules.writes state') λ _. Keeps-pure 0

  on_healed-Keeps :
      (state : State) (standby : Option Standby) → Keeps P (on_healed svc cfg state standby)
  unfolding on_healed
  on_healed-Keeps state none = settle_streak-Keeps state
  on_healed-Keeps state (some standby) =
      Keeps-bind rules.discards
        λ _. Keeps-bind (rules.writes _) λ _. search (talk_rules, rules.talks)

  on_live_mint-Keeps :
      (current : Pair) (state : State) (mint : Mint)
      → Keeps P (on_live_mint svc cfg current state mint)
  unfolding on_live_mint
  on_live_mint-Keeps current state minted_ok = on_healed-Keeps state state.recovery
  on_live_mint-Keeps current state (mint_failed status body) =
      Keeps-bind (clock-Keeps svc cfg) λ now. on_fault-Keeps current state _

  on_live-Keeps : (state : State) (r : Outcome Pair) → Keeps P (on_live svc cfg state r)
  unfolding on_live
  on_live-Keeps state (raised e) = search (talk_rules, rules.talks)
  on_live-Keeps state (ok current) =
      Keeps-bind (try_mint-Keeps current) λ mint. on_live_mint-Keeps current state mint

  examine-Keeps : (state : State) → Keeps P (examine svc cfg state)
  unfolding examine live_files
  examine-Keeps state = Keeps-bind (Keeps-gets _) λ there.
      Keeps-if (not there) (search (talk_rules, rules.talks)) (
        Keeps-bind (Keeps-attempt (load-Keeps live_key live_cert))
          λ current. on_live-Keeps state current)

  pub run_recovery-Keeps : Keeps P (run_recovery svc cfg)
  unfolding run_recovery token_is_fresh
  run_recovery-Keeps = Keeps-if _ (Keeps-pure 0) (
      Keeps-bind read_state-Keeps λ state.
        Keeps-bind (Keeps-gets _)
          λ fresh. Keeps-if _ (settle_streak-Keeps state) (examine-Keeps state))
