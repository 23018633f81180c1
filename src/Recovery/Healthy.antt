-- ===== src/Recovery/Healthy.antt =====
-- What healthy passes leave of the record of a fault.
use postfix_m365_relay.Machine.Files.{IsQuiet}
use postfix_m365_relay.Base.{◌∙◌, ap, ◌&&◌, not, false, none, some, true, ◌≡◌, refl, ℕ}
use postfix_m365_relay.Recovery.Run.{
  clear_parts, in_flight, settle_streak, token_is_fresh, run_recovery, fresh_at, clear_streak,
}
use postfix_m365_relay.Machine.Types.{History, Machine, State, Config, Services}
use postfix_m365_relay.Machine.Actions.{write_state, read_state, seconds}
use postfix_m365_relay.Recovery.Outcomes.{state_of}
use postfix_m365_relay.Machine.Exec.{◌>>=◌, pure, gets}

clear_both :
    (state : State) (streak : ℕ)
    → state.cert_fault_streak ≡ some streak
    → clear_streak state ≡ some (record state { cert_fault_streak = none })
unfolding clear_streak
clear_both state streak h = ap (λ o. clear_parts state o state.cert_fault_since) h

clear_since :
    (state : State) (since : ℕ)
    → state.cert_fault_streak ≡ none
    → state.cert_fault_since ≡ some since
    → clear_streak state ≡ some (record state { cert_fault_since = none })
unfolding clear_streak
clear_since state since h k =
    ap (λ o. clear_parts state o state.cert_fault_since) h ∙ ap (λ o. clear_parts state none o) k

module _ (svc : Services) (cfg : Config) (on : cfg.recovery_enabled ≡ true)
    (wet : cfg.dry_run ≡ false) (quiet : IsQuiet svc)
    (fresh : (h : History) → fresh_at (seconds (svc.now h)) (svc.token_expiry h) ≡ true) where
  healthy_pass :
      (s : Machine) (state : State)
      → (state_of s).recovery ≡ none
      → clear_streak (state_of s) ≡ some state
      → (run_recovery svc cfg s).1.saved ≡ some state
  unfolding run_recovery read_state token_is_fresh settle_streak write_state gets pure ◌>>=◌
  healthy_pass s state idle cleared =
      let shortcut : (not (in_flight svc cfg (state_of s).recovery)
            && fresh_at (seconds (svc.now s.history)) (svc.token_expiry s.history))
          ≡ true =
        (let f = fresh s.history in rw (idle, f) refl) in
      simp (on, shortcut, cleared, wet, quiet) refl

-- A healthy pass over a record that has both a streak and the time of its first failure removes the
-- streak and keeps the time; only the next healthy pass removes the time as well. No write of a
-- file fails.
pub run_recovery-stale :
    (svc : Services) (cfg : Config) (streak since : ℕ) (s : Machine)
    → cfg.recovery_enabled ≡ true
    → cfg.dry_run ≡ false
    → IsQuiet svc
    → ((h : History) → fresh_at (seconds (svc.now h)) (svc.token_expiry h) ≡ true)
    → (state_of s).recovery ≡ none
    → (state_of s).cert_fault_streak ≡ some streak
    → (state_of s).cert_fault_since ≡ some since
    → let once = (run_recovery svc cfg s).1 in
      let twice = (run_recovery svc cfg once).1 in
      ((state_of once).cert_fault_streak ≡ none)
      × ((state_of once).cert_fault_since ≡ some since)
      × ((state_of twice).cert_fault_since ≡ none)
run_recovery-stale svc cfg streak since s on wet quiet fresh idle counted first =
    let once = (run_recovery svc cfg s).1 in
    let saved_once =
      healthy_pass svc cfg on wet quiet fresh s _ idle (clear_both (state_of s) streak counted) in
    let idle_once : (state_of once).recovery ≡ none = rw saved_once idle in
    let streak_once : (state_of once).cert_fault_streak ≡ none = rw saved_once refl in
    let since_once : (state_of once).cert_fault_since ≡ some since = rw saved_once first in
    let saved_twice =
      healthy_pass svc cfg on wet quiet fresh once _ idle_once
        (clear_since (state_of once) since streak_once since_once) in
    (streak_once, since_once, rw saved_twice refl)
