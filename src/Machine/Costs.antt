-- ===== src/Machine/Costs.antt =====
-- What an action costs: the seconds that it waits, and the requests that it makes.
use postfix_m365_relay.Base.{
  none, some, false, Text, String, true, Option, if◌then◌else◌, [], ◌*◌, zero, ◌∷◌, ◌≤◌, arith, ◌+◌,
  Bool, suc, ℕ,
}
use postfix_m365_relay.Machine.Exec.{emitted, resume, ◌>>=◌}
use postfix_m365_relay.Machine.Actions.{
  written, stored_in, send_alert, sleep, graph, send_proof_message, make_certificate, cert_action,
  token, write_state, run_immediate_token_refresh, clock, proof, upstream_port, log, read_state,
}
use postfix_m365_relay.Machine.Types.{
  save_state, append_log, alerted, proof_sent, noted, called, raised, State, ok, os_error, Scope,
  minted, GraphRequest, Content, Failure, Machine, slept, Outcome, Config, Slot, Services, Event,
  History,
}
use postfix_m365_relay.Machine.Files.{
  Pair, replace, unlink, set_file, replace_with, load, write_file,
}
use postfix_m365_relay.Machine.Exec.{Exec, attempt, pure, lift, gets, raise}

-- With `second_cost` for a second of waiting and `request_cost` for a request to Entra, Graph or the
-- submission server.
module _ (second_cost request_cost : ℕ) where
  abbrev pub event_cost : Event → ℕ
  event_cost (slept n) = second_cost * n
  event_cost (minted scope digest answer) = request_cost
  event_cost (called request answer) = request_cost
  event_cost (proof_sent bearer digest sent) = request_cost
  event_cost _ = 0

  abbrev pub cost : History → ℕ
  cost [] = 0
  cost (e ∷ history) = event_cost e + cost history

  pub record Costs {A : Type 0} (k : ℕ) (m : Exec A) : Type 0 where
    pub run : (s : Machine) → cost (m s).1.history ≤ k + cost s.history

abbrev pub times : ℕ → ℕ → ℕ
times zero x = 0
times (suc n) x = x + times n x

module _ {a b : ℕ} {A : Type 0} where
  pub Costs-within : {j : ℕ} {m : Exec A} (k : ℕ) → Costs a b j m → j ≤ k → Costs a b k m
  Costs-within k c h = record { run = λ s. omega (arith, c.run s) }

  pub Costs-pure : (x : A) → Costs a b 0 (pure x)
  unfolding pure
  Costs-pure x = record { run = λ s. omega arith }

  pub Costs-raise : (e : Failure) → Costs a b 0 (raise {A = A} e)
  unfolding raise
  Costs-raise e = record { run = λ s. omega arith }

  pub Costs-gets : (f : Machine → A) → Costs a b 0 (gets f)
  unfolding gets
  Costs-gets f = record { run = λ s. omega arith }

  pub Costs-lift : (r : Outcome A) → Costs a b 0 (lift r)
  unfolding lift
  Costs-lift r = record { run = λ s. omega arith }

  pub Costs-if :
      {j : ℕ} {m n : Exec A} (t : Bool)
      → Costs a b j m
      → Costs a b j n
      → Costs a b j (if t then m else n)
  Costs-if true c d = c
  Costs-if false c d = d

  pub Costs-attempt : {k : ℕ} {m : Exec A} → Costs a b k m → Costs a b k (attempt m)
  unfolding attempt
  Costs-attempt c = record { run = c.run }

module _ {a b : ℕ} {A B : Type 0} where
  pub Costs-bind :
      {j k : ℕ} {m : Exec A} {f : A → Exec B}
      → Costs a b j m
      → ((x : A) → Costs a b k (f x))
      → Costs a b (j + k) (m >>= f)
  unfolding ◌>>=◌
  Costs-bind {j} {k} {m} {f} c d = record { run = λ s. next (m s).0 (m s).1 s (c.run s) }
    where
      next :
          (r : Outcome A) (t s : Machine)
          → cost a b t.history ≤ j + cost a b s.history
          → cost a b (resume r f t).1.history ≤ j + k + cost a b s.history
      next (ok x) t s h = omega (arith, (d x).run t)
      next (raised e) t s h = omega arith

  -- An action that costs nothing, and then the rest.
  pub Costs-free :
      {k : ℕ} {m : Exec A} {f : A → Exec B}
      → Costs a b 0 m
      → ((x : A) → Costs a b k (f x))
      → Costs a b k (m >>= f)
  Costs-free {k} c d = Costs-within k (Costs-bind c d) (omega arith)

module _ {a b : ℕ} where
  pub Costs-set_file :
      (slot : Slot) (content : Option Content) → Costs a b 0 (set_file slot content)
  unfolding set_file
  Costs-set_file slot content = record { run = λ s. omega arith }

  pub unlink-Costs : (slot : Slot) → Costs a b 0 (unlink slot)
  unfolding unlink
  unlink-Costs slot = record { run = λ s. omega arith }

  pub write_file-Costs :
      (svc : Services) (slot : Slot) (content : Content) → Costs a b 0 (write_file svc slot content)
  unfolding write_file
  write_file-Costs svc slot content = record { run = λ s. ground arith }

  replace_with-Costs : (from to : Slot) (o : Option Content) → Costs a b 0 (replace_with from to o)
  unfolding replace_with
  replace_with-Costs from to none = Costs-raise os_error
  replace_with-Costs from to (some content) =
      Costs-free (Costs-set_file to (some content)) λ _. Costs-set_file from none

  pub replace-Costs : (from to : Slot) → Costs a b 0 (replace from to)
  unfolding replace
  replace-Costs from to = record { run = λ s. (replace_with-Costs from to (s.files from)).run s }

  pub read_state-Costs : Costs a b 0 read_state
  unfolding read_state
  read_state-Costs = record { run = λ s. omega arith }

pub ruleset base_costs = (
  Costs-pure, Costs-raise, Costs-gets, Costs-lift, Costs-if, Costs-attempt, Costs-free,
  unlink-Costs, write_file-Costs, replace-Costs, read_state-Costs,
)

module _ {a b : ℕ} where
  pub load-Costs : (k c : Slot) → Costs a b 0 (load k c)
  unfolding load
  load-Costs k c = search base_costs depth 9

module _ {a b : ℕ} (svc : Services) (cfg : Config) where
  pub clock-Costs : Costs a b 0 (clock svc cfg)
  unfolding clock
  clock-Costs = record { run = λ s. omega arith }

  pub sleep-Costs : (n : ℕ) → Costs a b (a * n) (sleep svc cfg n)
  unfolding sleep
  sleep-Costs n = record { run = λ s. omega arith }

  pub log-Costs : (step outcome : String) → Costs a b 0 (log svc cfg step outcome)
  unfolding log
  log-Costs step outcome = record {
    run = λ s. by_flags cfg.dry_run (svc.fails append_log s.history) s;
  }
    where
      by_flags :
          (t f : Bool) (s : Machine)
          → let r : Outcome (Unit {0}) × Machine =
              (if t
                then (ok tt, s)
                else written svc cfg f append_log (emitted (noted step outcome) s) s) in
            cost a b r.1.history ≤ 0 + cost a b s.history
      by_flags true f s = omega arith
      by_flags false true s = omega arith
      by_flags false false s = omega arith

  pub write_state-Costs : (state : State) → Costs a b 0 (write_state svc cfg state)
  unfolding write_state
  write_state-Costs state = record {
    run = λ s. by_flags cfg.dry_run (svc.fails save_state s.history) s;
  }
    where
      by_flags :
          (t f : Bool) (s : Machine)
          → let r : Outcome (Unit {0}) × Machine =
              (if t
                then (ok tt, s)
                else written svc cfg f save_state (stored_in svc cfg state s) s) in
            cost a b r.1.history ≤ 0 + cost a b s.history
      by_flags true f s = omega arith
      by_flags false true s = omega arith
      by_flags false false s = omega arith

  pub send_alert-Costs : Costs a b 0 (send_alert svc cfg)
  unfolding send_alert
  send_alert-Costs = record { run = λ s. by_flag cfg.has_alert s }
    where
      by_flag :
          (t : Bool) (s : Machine)
          → let r : Outcome (Unit {0}) × Machine =
              (if t then (ok tt, emitted alerted s) else (ok tt, s)) in
            cost a b r.1.history ≤ 0 + cost a b s.history
      by_flag true s = omega arith
      by_flag false s = omega arith

  pub proof-Costs : (pair : Pair) → Costs a b 0 (proof svc cfg pair)
  unfolding proof
  proof-Costs pair = record { run = λ s. omega arith }

  pub upstream_port-Costs : Costs a b 0 (upstream_port svc cfg)
  unfolding upstream_port lift
  upstream_port-Costs = record { run = λ s. omega arith }

  pub make_certificate-Costs : Costs a b 0 (make_certificate svc cfg)
  unfolding make_certificate
  make_certificate-Costs = record { run = λ s. omega arith }

  pub refresh-Costs : Costs a b 0 (run_immediate_token_refresh svc cfg)
  unfolding run_immediate_token_refresh
  refresh-Costs = record { run = λ s. omega arith }

  pub cert_action-Costs : (action : String) → Costs a b 0 (cert_action svc cfg action)
  unfolding cert_action
  cert_action-Costs action = record { run = λ s. omega arith }

  pub token-Costs : (scope : Scope) (pair : Pair) → Costs a b b (token svc cfg scope pair)
  unfolding token
  token-Costs scope pair = record { run = λ s. omega arith }

  pub graph-Costs :
      (request : GraphRequest) (bearer : Text) → Costs a b b (graph svc cfg request bearer)
  unfolding graph
  graph-Costs request bearer = record { run = λ s. omega arith }

  pub send_proof_message-Costs :
      (bearer to thumbprint : Text) → Costs a b b (send_proof_message svc cfg bearer to thumbprint)
  unfolding send_proof_message
  send_proof_message-Costs bearer to thumbprint = record { run = λ s. omega arith }

pub ruleset free_actions = (
  base_costs, load-Costs, clock-Costs, log-Costs, write_state-Costs, send_alert-Costs, proof-Costs,
  upstream_port-Costs, make_certificate-Costs, refresh-Costs, cert_action-Costs,
)
