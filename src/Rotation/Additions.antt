-- ===== src/Rotation/Additions.antt =====
-- Runs that have a reason not to rotate, and their addKey requests.
use postfix_m365_relay.Base.{
  ℕ, ◌+◌, ◌≡◌, refl, Bool, true, false, not, ◌&&◌, ◌||◌, Option, none, some, [], ◌∷◌, arith, String,
  Text, ℤ, pos, ltb_ℤ, ◌<ℤ◌,
}
use postfix_m365_relay.Credential.Owner.{is_empty}
use postfix_m365_relay.Machine.Types.{
  ok, Event, called, post_add, History, live_key, live_cert, Machine, Services, Config, State,
}
use postfix_m365_relay.Machine.Exec.{◌>>=◌, pure}
use postfix_m365_relay.Machine.Files.{Pair, load}
use postfix_m365_relay.Machine.Actions.{
  log, or_empty_state, clock, write_state, days_remaining, read_state,
}
use postfix_m365_relay.Machine.Triple.{Triple-if, Triple-final, Keeps, Keeps-bind, Keeps-pure}
use postfix_m365_relay.Machine.Keeps.{IsStable, log-Keeps}
use postfix_m365_relay.Machine.Stores.{write_state-Triple}
use postfix_m365_relay.Rotation.Frame.Writes.{settle_addition-Keeps, retire_old-Keeps}
use postfix_m365_relay.Rotation.Housekeeping.{settle_addition}
use postfix_m365_relay.Rotation.Run.{
  with_recipient, rotate_due, is_early, rotate_if_due, after_settling, run_rotation,
}

abbrev pub is_addition : Event → ℕ
is_addition (called (post_add cert name assertion) answer) = 1
is_addition _ = 0

-- The addKey requests of a history.
abbrev pub additions : History → ℕ
additions [] = 0
additions (e ∷ history) = is_addition e + additions history

-- What stands in the way of a rotation with so many days remaining.
abbrev no_recipient : Option Text → Bool
no_recipient none = true
no_recipient (some recipient) = is_empty recipient

abbrev blocked : Config → ℤ → Bool
blocked cfg remaining =
    ltb_ℤ cfg.renew_at remaining && not cfg.force
    || not (ltb_ℤ (pos 0) remaining)
    || cfg.dry_run
    || no_recipient cfg.recipient

module _ (n : ℕ) where
  abbrev Added : Machine → Type 0
  Added s = additions s.history ≡ n

  Added-stable : IsStable Added
  Added-stable = record { after = λ e s t h. ground arith }

  module _ (svc : Services) (cfg : Config) where
    write-Added : (state : State) → Keeps Added (write_state svc cfg state)
    write-Added state =
        write_state-Triple svc cfg state (λ _ s h. ground arith) (λ _ s h. h) (λ s h. ground arith)

    logged :
        (step outcome : String) (status : ℕ)
        → Keeps Added (log svc cfg step outcome >>= λ _. pure status)
    logged step outcome status =
        Keeps-bind (log-Keeps Added-stable svc cfg step outcome) λ _. Keeps-pure status

    with_recipient-Added :
        (current : Pair) (state : State) (to : Option Text)
        → no_recipient to ≡ true
        → Keeps Added (with_recipient svc cfg current state to)
    unfolding with_recipient
    with_recipient-Added current state none h = logged "prove-send" "FAILED" 1
    with_recipient-Added current state (some to) h = rw h (logged "prove-send" "FAILED" 1)

    rotate_due-Added :
        (current : Pair) (state : State) (remaining : ℤ) (recipient : Option Text)
        → blocked cfg remaining ≡ true
        → is_early svc cfg remaining ≡ false
        → Keeps Added (rotate_due svc cfg current state remaining)
    unfolding rotate_due
    rotate_due-Added current state remaining recipient h early =
        Keeps-bind (log-Keeps Added-stable svc cfg "check-expiry" "due") λ _.
          Triple-if (not (ltb_ℤ (pos 0) remaining)) (λ _. logged "check-expiry" "FAILED" 1)
            λ alive.
              Triple-if cfg.dry_run (λ _. logged "dry-run" "ok" 0)
                λ wet. with_recipient-Added current state cfg.recipient (ground arith)

    rotate_if_due-Added :
        (current : Pair) (state : State) (remaining : ℤ)
        → blocked cfg remaining ≡ true
        → Keeps Added (rotate_if_due svc cfg current state remaining)
    unfolding rotate_if_due
    rotate_if_due-Added current state remaining h =
        Triple-if (is_early svc cfg remaining) (λ _. logged "check-expiry" "ok" 0)
          λ early. rotate_due-Added current state remaining cfg.recipient h early

    after_settling-Added :
        (current : Pair) (remaining : ℤ) (settled : Option State)
        → blocked cfg remaining ≡ true
        → Keeps Added (after_settling svc cfg current remaining settled)
    unfolding after_settling
    after_settling-Added current remaining none h = Keeps-pure 1
    after_settling-Added current remaining (some state) h =
        Keeps-bind (retire_old-Keeps Added-stable svc cfg write-Added current state)
          λ state'. rotate_if_due-Added current state' remaining h

    settle-Added :
        (current : Pair) (state : State) → Keeps Added (settle_addition svc cfg current state)
    settle-Added = settle_addition-Keeps Added-stable svc cfg write-Added

-- The reasons for which a run does not rotate.
pub data Blocked (cfg : Config) (remaining : ℤ) : Type 0 where
  early : cfg.renew_at <ℤ remaining → cfg.force ≡ false → Blocked cfg remaining
  expired : ¬ (pos 0 <ℤ remaining) → Blocked cfg remaining
  dry : cfg.dry_run ≡ true → Blocked cfg remaining
  nobody : cfg.recipient ≡ none → Blocked cfg remaining

blocked_of : (cfg : Config) (remaining : ℤ) → Blocked cfg remaining → blocked cfg remaining ≡ true
blocked_of cfg remaining (early h f) = ground arith
blocked_of cfg remaining (expired h) = ground arith
blocked_of cfg remaining (dry h) = ground arith
blocked_of cfg remaining (nobody h) = ground arith

-- A run adds no key where more days remain than the threshold and the run is not forced, where the live
-- certificate has expired, on a dry run, and without a recipient for the proof message.
pub run_rotation-Blocked :
    (svc : Services) (cfg : Config) (current : Pair) (s : Machine)
    → load live_key live_cert s ≡ (ok current, s)
    → Blocked cfg (days_remaining current.cert (svc.now s.history))
    → additions (run_rotation svc cfg s).1.history ≡ additions s.history
unfolding run_rotation clock read_state ◌>>=◌
run_rotation-Blocked svc cfg current s loaded h =
    let remaining = days_remaining current.cert (svc.now s.history) in
    let n = additions s.history in
    rw loaded (
      Triple-final
        (Keeps-bind (settle-Added n svc cfg current (or_empty_state s.saved)) λ settled.
          after_settling-Added n svc cfg current remaining settled (blocked_of cfg remaining h))
        s refl)
