-- ===== src/Rotation/Frame/Turn.antt =====
-- A turn of the certificate, from the steps that write the credential files.
use postfix_m365_relay.Base.{none, true, some, Bool, String, Option, Text}
use postfix_m365_relay.Machine.Types.{graph_default, State, Config, Services, Machine}
use postfix_m365_relay.Rotation.Steps.{
  swap_pairs, unlink_staged, stage_certificate, abandon, add_key, after_token, after_wait,
  after_proof, carry_through, adopt,
}
use postfix_m365_relay.Rotation.Run.{rotate_to}
use postfix_m365_relay.Machine.Files.{Pair}
use postfix_m365_relay.Machine.Keeps.{
  refresh-Keeps, send_proof_message-Keeps, upstream_port-Keeps, clock-Keeps, token-Keeps, log-Keeps,
  IsStable,
}
use postfix_m365_relay.Machine.Triple.{Keeps-if, Keeps-pure, Keeps-bind, Keeps}
use postfix_m365_relay.Machine.Actions.{write_state}
use postfix_m365_relay.Rotation.Frame.Writes.{announce-Keeps, abandon-Keeps, schedule_removal-Keeps}
use postfix_m365_relay.Rotation.Frame.Run.{RunRules}
use postfix_m365_relay.Rotation.Frame.{await_replication-Keeps, prove_token-Keeps}

-- What a property needs in order to outlast a run: the steps that may break it.
pub record TurnRules (P : Machine → Type 0) (svc : Services) (cfg : Config) : Type 0 where
  pub talks : IsStable P
  pub writes : (state : State) → Keeps P (write_state svc cfg state)
  pub adds : (current fresh : Pair) (bearer : Text) → Keeps P (add_key svc cfg current fresh bearer)
  pub stages : Keeps P (stage_certificate svc cfg)
  pub unstages : Keeps P unlink_staged
  pub swaps : Keeps P swap_pairs

module _ {P : Machine → Type 0} (svc : Services) (cfg : Config) (rules : TurnRules P svc cfg) where
  adopt-Keeps :
      (current : Pair) (state : State) (added bearer : Text)
      → Keeps P (adopt svc cfg current state added bearer)
  unfolding adopt
  adopt-Keeps current state added bearer = Keeps-bind rules.swaps λ _.
      Keeps-bind (log-Keeps rules.talks svc cfg "swap" "ok") λ _.
        Keeps-bind (schedule_removal-Keeps rules.talks svc cfg rules.writes current _ added bearer)
          λ _.
            Keeps-bind (refresh-Keeps rules.talks svc cfg)
              λ refreshed. announce-Keeps rules.talks svc cfg rules.writes refreshed

  abandoning :
      (current : Pair) (state : State) (added : Text) (step : String)
      → Keeps P (abandon svc cfg current state added step)
  abandoning current state added step =
      abandon-Keeps rules.talks svc cfg rules.writes current state added step rules.unstages

  after_proof-Keeps :
      (current : Pair) (state : State) (added bearer : Text) (sent : Bool)
      → Keeps P (after_proof svc cfg current state added bearer sent)
  unfolding after_proof
  after_proof-Keeps current state added bearer sent =
      Keeps-if sent
        (Keeps-bind (log-Keeps rules.talks svc cfg "prove-send" "ok")
          λ _. adopt-Keeps current state added bearer)
        (abandoning current state added "prove-send")

  after_token-Keeps :
      (current fresh : Pair) (state : State) (recipient added bearer : Text) (t : Option Text)
      → Keeps P (after_token svc cfg current fresh state recipient added bearer t)
  unfolding after_token
  after_token-Keeps current fresh state recipient added bearer none =
      abandoning current state added "prove-token"
  after_token-Keeps current fresh state recipient added bearer (some t) =
      Keeps-bind (upstream_port-Keeps svc cfg) λ port.
        Keeps-bind (send_proof_message-Keeps rules.talks svc cfg t recipient fresh.cert.digest)
          λ sent. after_proof-Keeps current state added bearer sent

  after_wait-Keeps :
      (current fresh : Pair) (state : State) (recipient added bearer : Text) (visible : Bool)
      → Keeps P (after_wait svc cfg current fresh state recipient added bearer visible)
  unfolding after_wait
  after_wait-Keeps current fresh state recipient added bearer visible =
      Keeps-if visible
        (Keeps-bind (prove_token-Keeps rules.talks svc cfg fresh true 20)
          λ t. after_token-Keeps current fresh state recipient added bearer t)
        (abandoning current state added "await-replication")

  carry_through-Keeps :
      (current fresh : Pair) (state : State) (recipient bearer : Text) (added : Option Text)
      → Keeps P (carry_through svc cfg current fresh state recipient bearer added)
  unfolding carry_through
  carry_through-Keeps current fresh state recipient bearer none = Keeps-pure 1
  carry_through-Keeps current fresh state recipient bearer (some added) =
      Keeps-bind (clock-Keeps svc cfg) λ now. Keeps-bind (rules.writes _) λ _.
        Keeps-bind (await_replication-Keeps rules.talks svc cfg added bearer 24)
          λ visible. after_wait-Keeps current fresh _ recipient added bearer visible

  rotate_to-Keeps :
      (current : Pair) (state : State) (recipient : Text)
      → Keeps P (rotate_to svc cfg current state recipient)
  unfolding rotate_to
  rotate_to-Keeps current state recipient = Keeps-bind rules.stages λ fresh.
      Keeps-bind (token-Keeps rules.talks svc cfg graph_default current) λ bearer.
        Keeps-bind (rules.adds current fresh bearer)
          λ added. carry_through-Keeps current fresh state recipient bearer added

  -- The rules of a whole run.
  pub of_TurnRules : RunRules P svc cfg
  of_TurnRules = record { talks = rules.talks; writes = rules.writes; rotates = rotate_to-Keeps }
