-- ===== src/Recovery/Run.antt =====
-- `run_recovery`: one pass of the recovery loop.
use postfix_m365_relay.Base.{
  ℕ, zero, suc, ◌+◌, Bool, true, false, not, ◌&&◌, ◌||◌, Option, none, some, leb, ltb,
  if◌then◌else◌, pos, ltb_ℤ,
}
use postfix_m365_relay.Credential.Failure.{
  Fault, transient, cert_fault, scope, unknown, classify_token_failure,
}
use postfix_m365_relay.Machine.Types.{
  Outcome, ok, raised, Certificate, live_key, live_cert, Services, Config, State, Standby,
}
use postfix_m365_relay.Machine.Exec.{Exec, pure, gets, attempt, ◌>>=◌, ◌>>◌}
use postfix_m365_relay.Machine.Files.{Pair, load}
use postfix_m365_relay.Machine.Actions.{
  clock, seconds, log, write_state, read_state, cert_action, days_remaining,
}
use postfix_m365_relay.Recovery.Standby.{
  Mint, minted_ok, mint_failed, live_files, discard_standby, without_fault, try_mint,
  generate_standby, advance_standby,
}

-- `int(data.get("expiry", 0)) - int(time.time()) >= 300`; none is a token file that cannot be read.
abbrev pub fresh_at : ℕ → Option ℕ → Bool
fresh_at now none = false
fresh_at now (some expiry) = leb (now + 300) expiry

-- `state.pop("cert_fault_streak", None) is not None or state.pop("cert_fault_since", None) is not None`:
-- the second is left in place where the first was there. `none` is a state with neither.
abbrev pub clear_parts : State → Option ℕ → Option ℕ → Option State
clear_parts state (some streak) since = some (record state { cert_fault_streak = none })
clear_parts state none (some since) = some (record state { cert_fault_since = none })
clear_parts state none none = none

unfoldable pub clear_streak : State → Option State
clear_streak state = clear_parts state state.cert_fault_streak state.cert_fault_since

abbrev pub streak_of : Option ℕ → ℕ
streak_of none = 0
streak_of (some streak) = streak

-- `state.get("cert_fault_since") or time.time()`
abbrev pub since_of : Option ℕ → ℕ → ℕ
since_of none now = now
since_of (some zero) now = now
since_of (some (suc n)) now = suc n

abbrev pub with_streak : ℕ → ℕ → State → State
with_streak streak since state = record state {
  cert_fault_streak = some streak;
  cert_fault_since = some since;
}

-- A locally expired certificate is definitive.
unfoldable pub fault_at : Certificate → ℕ → Fault → Fault
fault_at cert now fault = if ltb_ℤ (pos 0) (days_remaining cert now) then fault else cert_fault

module _ (svc : Services) (cfg : Config) where
  unfoldable pub token_is_fresh : Exec Bool
  token_is_fresh = gets (λ s. fresh_at (seconds (svc.now s.history)) (svc.token_expiry s.history))

  abbrev pub store_cleared : Option State → Exec ℕ
  store_cleared none = pure 0
  store_cleared (some state) = do write_state svc cfg state; pure 0

  unfoldable pub settle_streak : State → Exec ℕ
  settle_streak state = store_cleared (clear_streak state)

  -- `streak < need_streak or waited < need_seconds`
  unfoldable pub too_early : ℕ → ℕ → ℕ → Bool
  too_early streak since now = ltb streak cfg.need_streak || ltb now (since + cfg.need_seconds)

  unfoldable pub decide : ℕ → ℕ → ℕ → Exec ℕ
  decide streak since now =
      if too_early streak since now
      then (do log svc cfg "recover" "waiting"; pure 0)
      else generate_standby svc cfg

  unfoldable pub count_fault : State → Exec ℕ
  unfolding decide
  count_fault state = do
    now ← clock svc cfg
    let streak = suc (streak_of state.cert_fault_streak)
    let since = since_of state.cert_fault_since (seconds now)
    write_state svc cfg (with_streak streak since state)
    later ← clock svc cfg
    decide streak since (seconds later)

  unfoldable pub on_cert_fault : Pair → State → Option Standby → Exec ℕ
  on_cert_fault current state (some standby) = advance_standby svc cfg current state
  on_cert_fault current state none = count_fault state

  unfoldable pub on_fault : Pair → State → Fault → Exec ℕ
  on_fault current state transient = do log svc cfg "recover" "waiting"; pure 0
  on_fault current state scope = do log svc cfg "recover" "note"; pure 0
  on_fault current state unknown = do log svc cfg "recover" "waiting"; pure 0
  on_fault current state cert_fault = on_cert_fault current state state.recovery

  unfoldable pub on_healed : State → Option Standby → Exec ℕ
  on_healed state none = settle_streak state
  on_healed state (some standby) = do
    discard_standby
    write_state svc cfg (without_fault state)
    cert_action svc cfg "clear"
    log svc cfg "recover" "ok"
    pure 0

  unfoldable pub on_live_mint : Pair → State → Mint → Exec ℕ
  unfolding on_fault on_cert_fault on_healed
  on_live_mint current state minted_ok = on_healed state state.recovery
  on_live_mint current state (mint_failed status body) = do
    now ← clock svc cfg
    on_fault current state (fault_at current.cert now (classify_token_failure status body))

  unfoldable pub on_live : State → Outcome Pair → Exec ℕ
  on_live state (raised e) = do log svc cfg "recover" "note"; pure 0
  on_live state (ok current) = do
    minted ← try_mint svc cfg current
    on_live_mint current state minted

  unfoldable pub examine : State → Exec ℕ
  unfolding on_live on_live_mint
  examine state = do
    there ← live_files
    if not there
        then (do log svc cfg "recover" "note"; pure 0)
        else (do current ← attempt (load live_key live_cert); on_live state current)

  abbrev pub in_flight : Option Standby → Bool
  in_flight none = false
  in_flight (some standby) = true

  unfoldable pub run_recovery : Exec ℕ
  unfolding examine
  run_recovery = if not cfg.recovery_enabled then pure 0 else (do
    state ← read_state
    fresh ← token_is_fresh
    if not (in_flight state.recovery) && fresh then settle_streak state else examine state)
