-- ===== src/Rotation/Frame/Writes.antt =====
-- What the steps keep that also write the state file or remove the staged pair.
use postfix_m365_relay.Base.{ℕ, Bool, Option, none, some, String, Text}
use postfix_m365_relay.Machine.Types.{
  Machine, Services, Config, State, PendingAddition, PendingRemoval,
}
use postfix_m365_relay.Machine.Files.{Pair}
use postfix_m365_relay.Machine.Actions.{write_state}
use postfix_m365_relay.Machine.Triple.{Keeps, Keeps-bind, Keeps-lift, Keeps-if, Keeps-pure}
use postfix_m365_relay.Machine.Keeps.{IsStable, talk_rules, log-Keeps, get-Keeps, clock-Keeps}
use postfix_m365_relay.Rotation.Housekeeping.{
  settle_pending, after_cleanup, settle_addition, after_retirement, retire_pending, retire_old,
}
use postfix_m365_relay.Rotation.Steps.{
  abandoned, abandon, unlink_staged, replaced_key, schedule, schedule_removal, announce,
}
use postfix_m365_relay.Rotation.Frame.{remove_key-Keeps}

module _ {P : Machine → Type 0} (st : IsStable P) (svc : Services) (cfg : Config)
    (w : (state : State) → Keeps P (write_state svc cfg state)) where
  after_cleanup-Keeps : (state : State) (b : Bool) → Keeps P (after_cleanup svc cfg state b)
  unfolding after_cleanup
  after_cleanup-Keeps state b = search (talk_rules, w) depth 9

  settle_pending-Keeps :
      (current : Pair) (state : State) (p : Option PendingAddition)
      → Keeps P (settle_pending svc cfg current state p)
  unfolding settle_pending
  settle_pending-Keeps current state none = search talk_rules
  settle_pending-Keeps current state (some p) =
      search (talk_rules, w, remove_key-Keeps, after_cleanup-Keeps) depth 9

  pub settle_addition-Keeps :
      (current : Pair) (state : State) → Keeps P (settle_addition svc cfg current state)
  unfolding settle_addition
  settle_addition-Keeps current state =
      Keeps-if cfg.dry_run (Keeps-pure (some state))
        (settle_pending-Keeps current state state.pending_addition)

  after_retirement-Keeps : (state : State) (b : Bool) → Keeps P (after_retirement svc cfg state b)
  unfolding after_retirement
  after_retirement-Keeps state b = search (talk_rules, w) depth 9

  retire_pending-Keeps :
      (current : Pair) (state : State) (p : Option PendingRemoval)
      → Keeps P (retire_pending svc cfg current state p)
  unfolding retire_pending
  retire_pending-Keeps current state none = search talk_rules
  retire_pending-Keeps current state (some p) =
      search (talk_rules, remove_key-Keeps, after_retirement-Keeps) depth 9

  pub retire_old-Keeps :
      (current : Pair) (state : State) → Keeps P (retire_old svc cfg current state)
  unfolding retire_old
  retire_old-Keeps current state =
      Keeps-if cfg.dry_run (Keeps-pure state)
        (retire_pending-Keeps current state state.pending_removal)

  schedule-Keeps :
      (current : Pair) (state : State) (now : ℕ) (old : Option Text)
      → Keeps P (schedule svc cfg current state now old)
  unfolding schedule
  schedule-Keeps current state now none = search talk_rules
  schedule-Keeps current state now (some k) = search talk_rules depth 9

  pub schedule_removal-Keeps :
      (current : Pair) (state : State) (added bearer : Text)
      → Keeps P (schedule_removal svc cfg current state added bearer)
  unfolding schedule_removal
  schedule_removal-Keeps current state added bearer =
      Keeps-bind (get-Keeps st svc cfg bearer) λ reply.
        Keeps-bind (Keeps-lift (replaced_key added current.cert.digest reply)) λ old.
          Keeps-bind (clock-Keeps svc cfg)
            λ now. Keeps-bind (schedule-Keeps current state now old) λ state'. w state'

  pub announce-Keeps : (refreshed : Bool) → Keeps P (announce svc cfg refreshed)
  unfolding announce
  announce-Keeps refreshed = search talk_rules depth 9

  abandoned-Keeps : (state : State) (removed : Bool) → Keeps P (abandoned svc cfg state removed)
  unfolding abandoned
  abandoned-Keeps state removed = search (talk_rules, w) depth 9

  pub abandon-Keeps :
      (current : Pair) (state : State) (added : Text) (step : String)
      → Keeps P unlink_staged
      → Keeps P (abandon svc cfg current state added step)
  unfolding abandon
  abandon-Keeps current state added step u = Keeps-bind (log-Keeps st svc cfg step "FAILED") λ _.
      Keeps-bind (remove_key-Keeps st svc cfg current added) λ removed.
        Keeps-bind (abandoned-Keeps state removed) λ _. Keeps-bind u λ _. search talk_rules
