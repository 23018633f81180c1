-- ===== src/Rotation/Frame.antt =====
-- What the steps that only talk to the services leave alone.
pub mod Writes
pub mod Run
pub mod Turn
use postfix_m365_relay.Base.{
  ℕ, zero, suc, Bool, true, false, Option, none, some, String, Text, ◌==◌, ◌||◌, ◌&&◌, not,
}
use postfix_m365_relay.Machine.Types.{
  get_app, outlook, Outcome, ok, raised, Machine, Services, Config, Body,
}
use postfix_m365_relay.Machine.Exec.{Exec}
use postfix_m365_relay.Machine.Files.{Pair}
use postfix_m365_relay.Machine.Triple.{
  Keeps, Triple, keeps_rules, Keeps-bind, Keeps-lift, Keeps-if, Keeps-pure, Keeps-attempt,
}
use postfix_m365_relay.Machine.Keeps.{IsStable, talk_rules, sleep-Keeps, get-Keeps, token-Keeps}
use postfix_m365_relay.Rotation.Removal.{
  key_absent, remove_key, confirm_gone, remove_with, on_token,
}
use postfix_m365_relay.Rotation.Steps.{await_replication, key_visible, retry_token, prove_token}

module _ {P : Machine → Type 0} (st : IsStable P) (svc : Services) (cfg : Config) where
  confirm_gone-Keeps :
      (key_id bearer : Text) (n : ℕ) → Keeps P (confirm_gone svc cfg key_id bearer n)
  unfolding confirm_gone
  confirm_gone-Keeps key_id bearer zero = search talk_rules
  confirm_gone-Keeps key_id bearer (suc n) =
      let ih : Keeps P (confirm_gone svc cfg key_id bearer n) =
        confirm_gone-Keeps key_id bearer n in
      Keeps-bind (sleep-Keeps st svc cfg 5) λ _. Keeps-bind (get-Keeps st svc cfg bearer) λ reply.
        Keeps-bind (Keeps-lift (key_absent key_id reply)) λ gone. Keeps-if gone (Keeps-pure true) ih

  remove_with-Keeps :
      (current : Pair) (key_id bearer : Text) → Keeps P (remove_with svc cfg current key_id bearer)
  unfolding remove_with
  remove_with-Keeps current key_id bearer = search (talk_rules, confirm_gone-Keeps) depth 9

  on_token-Keeps :
      (current : Pair) (key_id : Text) (r : Outcome Text)
      → Keeps P (on_token svc cfg current key_id r)
  unfolding on_token
  on_token-Keeps current key_id (ok bearer) = remove_with-Keeps current key_id bearer
  on_token-Keeps current key_id (raised e) = search talk_rules

  pub remove_key-Keeps :
      (current : Pair) (key_id : Text) → Keeps P (remove_key svc cfg current key_id)
  unfolding remove_key
  remove_key-Keeps current key_id = search (talk_rules, on_token-Keeps) depth 9

  pub await_replication-Keeps :
      (added bearer : Text) (n : ℕ) → Keeps P (await_replication svc cfg added bearer n)
  unfolding await_replication
  await_replication-Keeps added bearer zero = search talk_rules
  await_replication-Keeps added bearer (suc n) =
      let ih : Keeps P (await_replication svc cfg added bearer n) =
        await_replication-Keeps added bearer n in
      Keeps-bind (sleep-Keeps st svc cfg 5) λ _. Keeps-bind (get-Keeps st svc cfg bearer) λ reply.
        Keeps-bind (Keeps-lift (key_visible added reply))
          λ visible. Keeps-if visible (search talk_rules) ih

  retry_token-Keeps :
      (again : Exec (Option Text)) (first : Bool) (r : Outcome Text)
      → Keeps P again
      → Keeps P (retry_token svc cfg again first r)
  retry_token-Keeps again first (ok bearer) k = search talk_rules
  retry_token-Keeps again first (raised e) k =
      Keeps-bind (Keeps-if first (search talk_rules) (Keeps-pure tt))
        λ _. Keeps-bind (sleep-Keeps st svc cfg 30) λ _. k

  pub prove_token-Keeps :
      (fresh : Pair) (first : Bool) (n : ℕ) → Keeps P (prove_token svc cfg fresh first n)
  unfolding prove_token
  prove_token-Keeps fresh first zero = search talk_rules
  prove_token-Keeps fresh first (suc n) =
      Keeps-bind (Keeps-attempt (token-Keeps st svc cfg outlook fresh)) λ answer.
        retry_token-Keeps (prove_token svc cfg fresh false n) first answer
          (prove_token-Keeps fresh false n)
