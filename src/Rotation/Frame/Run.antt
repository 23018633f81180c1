-- ===== src/Rotation/Frame/Run.antt =====
-- A whole run of the rotation, from the turn of the certificate.
use postfix_m365_relay.Base.{none, some, Option, Text, ℤ}
use postfix_m365_relay.Machine.Types.{live_cert, live_key, State, Config, Services, Machine}
use postfix_m365_relay.Rotation.Run.{
  rotate_to, run_rotation, after_settling, rotate_if_due, with_recipient,
}
use postfix_m365_relay.Machine.Files.{Pair}
use postfix_m365_relay.Machine.Keeps.{
  read_state-Keeps, clock-Keeps, load-Keeps, talk_rules, IsStable,
}
use postfix_m365_relay.Machine.Triple.{Keeps-if, Keeps-pure, Keeps-bind, Keeps}
use postfix_m365_relay.Machine.Actions.{write_state}
use postfix_m365_relay.Rotation.Frame.Writes.{settle_addition-Keeps, retire_old-Keeps}
use postfix_m365_relay.Credential.Owner.{is_empty}

-- What a property needs in order to outlast a run, where a turn of the certificate keeps it.
pub record RunRules (P : Machine → Type 0) (svc : Services) (cfg : Config) : Type 0 where
  pub talks : IsStable P
  pub writes : (state : State) → Keeps P (write_state svc cfg state)
  pub rotates :
      (current : Pair) (state : State) (recipient : Text)
      → Keeps P (rotate_to svc cfg current state recipient)

module _ {P : Machine → Type 0} (svc : Services) (cfg : Config) (rules : RunRules P svc cfg) where
  with_recipient-Keeps :
      (current : Pair) (state : State) (to : Option Text)
      → Keeps P (with_recipient svc cfg current state to)
  unfolding with_recipient
  with_recipient-Keeps current state none = search (talk_rules, rules.talks)
  with_recipient-Keeps current state (some to) =
      Keeps-if (is_empty to) (search (talk_rules, rules.talks)) (rules.rotates current state to)

  rotate_if_due-Keeps :
      (current : Pair) (state : State) (remaining : ℤ)
      → Keeps P (rotate_if_due svc cfg current state remaining)
  unfolding rotate_if_due
  rotate_if_due-Keeps current state remaining =
      search (talk_rules, rules.talks, with_recipient-Keeps) depth 12

  after_settling-Keeps :
      (current : Pair) (remaining : ℤ) (settled : Option State)
      → Keeps P (after_settling svc cfg current remaining settled)
  unfolding after_settling
  after_settling-Keeps current remaining none = Keeps-pure 1
  after_settling-Keeps current remaining (some state) =
      Keeps-bind (retire_old-Keeps rules.talks svc cfg rules.writes current state)
        λ state'. rotate_if_due-Keeps current state' remaining

  pub run_rotation-Keeps : Keeps P (run_rotation svc cfg)
  unfolding run_rotation
  run_rotation-Keeps = Keeps-bind (load-Keeps live_key live_cert) λ current.
      Keeps-bind (clock-Keeps svc cfg) λ now. Keeps-bind read_state-Keeps λ state.
        Keeps-bind (settle_addition-Keeps rules.talks svc cfg rules.writes current state)
          λ settled. after_settling-Keeps current _ settled
