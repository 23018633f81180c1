-- ===== src/Machine/Keeps.antt =====
-- Which actions leave a property of the machine alone.
use postfix_m365_relay.Base.{not, ℕ, ◌≡◌, refl, Bool, true, false, if◌then◌else◌, String, Text}
use postfix_m365_relay.Machine.Types.{
  append_log, disk_failed, Outcome, ok, raised, Slot, Scope, GraphRequest, get_app, post_remove,
  post_add, Assertion, HttpAnswer, response, refused, unreachable, bad_json, Event, filed, stored,
  called, minted, noted, Machine, Services, Config,
}
use postfix_m365_relay.Machine.Exec.{emitted}
use postfix_m365_relay.Machine.Files.{Pair, load}
use postfix_m365_relay.Machine.Triple.{Keeps, Triple, After, Keeps-lift, keeps_rules}
use postfix_m365_relay.Machine.Actions.{
  written, clock, sleep, log, token, proof, graph, make_certificate, send_proof_message,
  upstream_port, run_immediate_token_refresh, cert_action, send_alert, read_state, graph_result,
}

abbrev pub adds : GraphRequest → Bool
adds (post_add cert name assertion) = true
adds _ = false

-- Events that change neither a file nor the state file, and are no addKey.
abbrev pub is_talk : Event → Bool
is_talk (called request answer) = not (adds request)
is_talk (filed slot content) = false
is_talk (stored state) = false
is_talk _ = true

-- A property that talking to the services and logging cannot break.
pub record IsStable (P : Machine → Type 0) : Type 0 where
  pub after : (e : Event) (s : Machine) → is_talk e ≡ true → P s → P (emitted e s)

module _ {P : Machine → Type 0} where
  pub load-Keeps : (k c : Slot) → Keeps P (load k c)
  unfolding load
  load-Keeps k c = search keeps_rules depth 9

  pub read_state-Keeps : Keeps P read_state
  unfolding read_state
  read_state-Keeps = record { run = λ s h. h }

module _ {P : Machine → Type 0} (svc : Services) (cfg : Config) where
  pub clock-Keeps : Keeps P (clock svc cfg)
  unfolding clock
  clock-Keeps = record { run = λ s h. h }

  pub proof-Keeps : (pair : Pair) → Keeps P (proof svc cfg pair)
  unfolding proof
  proof-Keeps pair = record { run = λ s h. h }

  pub upstream_port-Keeps : Keeps P (upstream_port svc cfg)
  unfolding upstream_port
  upstream_port-Keeps = record { run = λ s h. (Keeps-lift {P = P} _).run s h }

module _ {P : Machine → Type 0} (svc : Services) (cfg : Config) where
  -- A request keeps what its event keeps.
  pub graph-Keeps :
      (request : GraphRequest) (bearer : Text)
      → ((a : HttpAnswer) (s : Machine) → P s → P (emitted (called request a) s))
      → Keeps P (graph svc cfg request bearer)
  unfolding graph
  graph-Keeps request bearer after = record {
    run = λ s h. by_answer (svc.graph_endpoint request bearer s.history) s h;
  }
    where
      by_answer :
          (a : HttpAnswer) (s : Machine)
          → P s
          → After (λ _. P) P (graph_result a) (emitted (called request a) s)
      by_answer (response status body) s h = after _ s h
      by_answer (refused status body) s h = after _ s h
      by_answer unreachable s h = after _ s h
      by_answer bad_json s h = after _ s h

  pub log-Keeps_of :
      (step outcome : String)
      → ((s : Machine) → P s → P (emitted (noted step outcome) s))
      → ((s : Machine) → P s → P (emitted (disk_failed append_log) s))
      → Keeps P (log svc cfg step outcome)
  unfolding log
  log-Keeps_of step outcome after lost = record {
    run = λ s h. by_flags cfg.dry_run (svc.fails append_log s.history) s h;
  }
    where
      by_flags :
          (b f : Bool) (s : Machine)
          → P s
          → let r : Outcome (Unit {0}) × Machine =
              (if b
                then (ok tt, s)
                else written svc cfg f append_log (emitted (noted step outcome) s) s) in
            After (λ _. P) P r.0 r.1
      by_flags true f s h = h
      by_flags false true s h = lost s h
      by_flags false false s h = after s h

  pub token-Keeps_of :
      (scope : Scope) (pair : Pair)
      → ((r : Outcome Text) (s : Machine) → P s → P (emitted (minted scope pair.cert.digest r) s))
      → Keeps P (token svc cfg scope pair)
  unfolding token
  token-Keeps_of scope pair after = record { run = λ s h. by_answer _ s h }
    where
      by_answer :
          (r : Outcome Text) (s : Machine)
          → P s
          → After (λ _. P) P r (emitted (minted scope pair.cert.digest r) s)
      by_answer (ok t) s h = after _ s h
      by_answer (raised e) s h = after _ s h

module _ {P : Machine → Type 0} (st : IsStable P) where
  said_if :
      (b : Bool) (e : Event) (s : Machine)
      → is_talk e ≡ true
      → P s
      → let r : Outcome (Unit {0}) × Machine = (if b then (ok tt, emitted e s) else (ok tt, s)) in
        After (λ _. P) P r.0 r.1
  said_if true e s t h = st.after e s t h
  said_if false e s t h = h

module _ {P : Machine → Type 0} (st : IsStable P) (svc : Services) (cfg : Config) where
  pub sleep-Keeps : (n : ℕ) → Keeps P (sleep svc cfg n)
  unfolding sleep
  sleep-Keeps n = record { run = λ s h. st.after _ s refl h }

  pub log-Keeps : (step outcome : String) → Keeps P (log svc cfg step outcome)
  log-Keeps step outcome =
      log-Keeps_of svc cfg step outcome (λ s h. st.after _ s refl h) (λ s h. st.after _ s refl h)

  pub token-Keeps : (scope : Scope) (pair : Pair) → Keeps P (token svc cfg scope pair)
  token-Keeps scope pair = token-Keeps_of svc cfg scope pair (λ r s h. st.after _ s refl h)

  pub get-Keeps : (bearer : Text) → Keeps P (graph svc cfg get_app bearer)
  get-Keeps bearer = graph-Keeps svc cfg get_app bearer (λ a s h. st.after _ s refl h)

  pub post_remove-Keeps :
      (key_id : Text) (assertion : Assertion) (bearer : Text)
      → Keeps P (graph svc cfg (post_remove key_id assertion) bearer)
  post_remove-Keeps key_id assertion bearer =
      graph-Keeps svc cfg (post_remove key_id assertion) bearer (λ a s h. st.after _ s refl h)

  pub make_certificate-Keeps : Keeps P (make_certificate svc cfg)
  unfolding make_certificate
  make_certificate-Keeps = record { run = λ s h. st.after _ s refl h }

  pub send_proof_message-Keeps :
      (bearer to thumbprint : Text) → Keeps P (send_proof_message svc cfg bearer to thumbprint)
  unfolding send_proof_message
  send_proof_message-Keeps bearer to thumbprint = record { run = λ s h. st.after _ s refl h }

  pub refresh-Keeps : Keeps P (run_immediate_token_refresh svc cfg)
  unfolding run_immediate_token_refresh
  refresh-Keeps = record { run = λ s h. st.after _ s refl h }

  pub cert_action-Keeps : (action : String) → Keeps P (cert_action svc cfg action)
  unfolding cert_action
  cert_action-Keeps action = record { run = λ s h. st.after _ s refl h }

  pub send_alert-Keeps : Keeps P (send_alert svc cfg)
  unfolding send_alert
  send_alert-Keeps = record { run = λ s h. said_if st cfg.has_alert _ s refl h }

pub ruleset talk_rules = (
  keeps_rules, load-Keeps, read_state-Keeps, clock-Keeps, proof-Keeps, upstream_port-Keeps,
  sleep-Keeps, log-Keeps, token-Keeps, get-Keeps, post_remove-Keeps, make_certificate-Keeps,
  send_proof_message-Keeps, refresh-Keeps, cert_action-Keeps, send_alert-Keeps,
)
