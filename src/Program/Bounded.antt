-- ===== src/Program/Bounded.antt =====
-- Every run of the program ends within a bounded time and number of requests.
use postfix_m365_relay.Base.{none, some, Bool, Text, arith, ◌+◌, Option, ◌≤◌, ℕ}
use postfix_m365_relay.Machine.Types.{
  get_app, live_cert, graph_default, live_key, State, Slot, Config, Services, Machine,
}
use postfix_m365_relay.Machine.Costs.{
  Costs-lift, read_state-Costs, log-Costs, graph-Costs, load-Costs, Costs-within, Costs-pure,
  token-Costs, Costs-bind, Costs-free, free_actions, Costs-if, Costs, cost,
}
use postfix_m365_relay.Program.{
  is_empty, can_start, certify, Settings, remove_by_id, generate_at, online, renew_certificate,
  show_keys, CommandLine, dispatch, first_pair, generate_only, with_live, main,
}
use postfix_m365_relay.Rotation.Removal.{remove_classified, remove_target, remove_key_by_hand}
use postfix_m365_relay.Recovery.Run.{run_recovery}
use postfix_m365_relay.Rotation.Costs.{remove_key-Costs, rotation_cost, removal_cost}
use postfix_m365_relay.Rotation.Reset.{set_aside, outgoing, reset, fresh_start}
use postfix_m365_relay.Rotation.Listing.{list_keys}
use postfix_m365_relay.Machine.Files.{Pair}
use postfix_m365_relay.Recovery.Standby.{live_files}
use postfix_m365_relay.Rotation.Costs.Whole.{run_rotation-Costs}
use postfix_m365_relay.Recovery.Costs.{run_recovery-Costs}
use postfix_m365_relay.Credential.Thumbprint.{Credential}
use postfix_m365_relay.Machine.Actions.{key_credentials}

-- The seconds for which a run slept, and the requests that it made to Entra, Graph and the submission
-- server; each request has a time limit of its own.
abbrev pub waited : Machine → ℕ
waited s = cost 1 0 s.history

abbrev pub requests : Machine → ℕ
requests s = cost 0 1 s.history

-- The most that a run costs is a rotation after two removals.
abbrev whole_cost : ℕ → ℕ → ℕ
whole_cost a b = removal_cost a b + (removal_cost a b + rotation_cost a b)

module _ {a b : ℕ} (svc : Services) (cfg : Config) where
  certify-Costs : (key : ℕ) → Costs a b 0 (certify svc cfg key)
  unfolding certify
  certify-Costs key = record { run = λ s. omega arith }

  renew_certificate-Costs : (k c : Slot) → Costs a b 0 (renew_certificate svc cfg k c)
  unfolding renew_certificate
  renew_certificate-Costs k c = search (free_actions, certify-Costs) depth 12

  first_pair-Costs : (k c : Slot) → Costs a b 0 (first_pair svc cfg k c)
  unfolding first_pair
  first_pair-Costs k c = search free_actions depth 12

  generate_only-Costs :
      (reuse : Bool) (paths : Option (Slot × Slot))
      → Costs a b 0 (generate_only svc cfg reuse paths)
  unfolding generate_only generate_at
  generate_only-Costs reuse none = Costs-pure 2
  generate_only-Costs reuse (some (k, c)) =
      Costs-if _ (Costs-pure 2)
        (Costs-if reuse (renew_certificate-Costs k c) (first_pair-Costs k c))

  fresh_start-Costs : (old : Option Text) → Costs a b 0 (fresh_start svc cfg old)
  unfolding fresh_start
  fresh_start-Costs old = search free_actions depth 15

  outgoing-Costs : (there : Bool) → Costs a b 0 (outgoing there)
  unfolding outgoing set_aside
  outgoing-Costs there = search free_actions depth 12

  reset-Costs : Costs a b 0 (reset svc cfg)
  unfolding reset live_files
  reset-Costs = search (free_actions, outgoing-Costs, fresh_start-Costs) depth 12

  list_keys-Costs : (current : Pair) → Costs a b (b + b) (list_keys svc cfg current)
  unfolding list_keys
  list_keys-Costs current = Costs-bind (token-Costs svc cfg graph_default current) λ bearer.
      Costs-within _
        (Costs-bind {k = 0} (graph-Costs svc cfg get_app bearer)
          λ (status, body). search free_actions depth 12)
        (omega arith)

  show_keys-Costs : Costs a b (b + b) (show_keys svc cfg)
  unfolding show_keys
  show_keys-Costs = Costs-free (load-Costs live_key live_cert) λ current.
      Costs-within _ (Costs-bind {k = 0} (list_keys-Costs current) λ listing. Costs-pure _)
        (omega arith)

  remove_target-Costs :
      (current : Pair) (key_id : Text) (state : State) (target : Option Credential)
      → Costs a b (removal_cost a b) (remove_target svc cfg current key_id state target)
  unfolding remove_target remove_classified
  remove_target-Costs current key_id state none =
      Costs-within _ (Costs-free (log-Costs svc cfg _ _) λ _. Costs-pure 0) (omega arith)
  remove_target-Costs current key_id state (some target) =
      Costs-if _
        (Costs-within _
          (Costs-bind {k = 0} (remove_key-Costs svc cfg current key_id)
            λ removed. search free_actions depth 9)
          (omega arith))
        (Costs-within _ (Costs-free (log-Costs svc cfg _ _) λ _. Costs-pure 1) (omega arith))

  remove_key_by_hand-Costs :
      (current : Pair) (key_id : Text)
      → Costs a b (b + (b + removal_cost a b)) (remove_key_by_hand svc cfg current key_id)
  unfolding remove_key_by_hand
  remove_key_by_hand-Costs current key_id =
      Costs-bind (token-Costs svc cfg graph_default current) λ bearer.
        Costs-bind (graph-Costs svc cfg get_app bearer) λ (status, body).
          Costs-if _ (Costs-within _ (Costs-pure 1) (omega arith)) (
            Costs-free read_state-Costs λ state.
              Costs-free (Costs-lift (key_credentials body))
                λ credentials. remove_target-Costs current key_id state _)

  with_live-Costs : (key_id : Option Text) → Costs a b (whole_cost a b) (with_live svc cfg key_id)
  unfolding with_live remove_by_id
  with_live-Costs none = run_rotation-Costs svc cfg
  with_live-Costs (some key_id) = Costs-if (is_empty key_id) (run_rotation-Costs svc cfg) (
      Costs-free (load-Costs live_key live_cert)
        λ current. Costs-within _ (remove_key_by_hand-Costs current key_id) (omega arith))

  dispatch-Costs : (args : CommandLine) → Costs a b (whole_cost a b) (dispatch svc cfg args)
  unfolding dispatch
  dispatch-Costs args = Costs-if args.wants_reset (Costs-within _ reset-Costs (omega arith)) (
      Costs-if args.wants_recover (Costs-within _ (run_recovery-Costs svc cfg) (omega arith)) (
        Costs-if args.wants_list (Costs-within _ show_keys-Costs (omega arith))
          (with_live-Costs args.remove_key_id)))

  pub main-Costs :
      (args : CommandLine) (settings : Settings)
      → Costs a b (whole_cost a b) (main svc cfg args settings)
  unfolding main online
  main-Costs args settings =
      Costs-if args.wants_pair
        (Costs-within _ (generate_only-Costs args.reuse_key args.paths) (omega arith))
        (Costs-if _ (Costs-within _ (Costs-pure 2) (omega arith)) (
          Costs-if (can_start settings) (dispatch-Costs args)
            (Costs-within _ (Costs-pure 1) (omega arith))))

-- Whatever the services answer, a run of the program sleeps for at most fifteen minutes and makes at
-- most 89 requests: none of its loops of retries goes on for ever.
pub main-bounded :
    (svc : Services) (cfg : Config) (args : CommandLine) (settings : Settings) (s : Machine)
    → (waited (main svc cfg args settings s).1 ≤ 900 + waited s)
      × (requests (main svc cfg args settings s).1 ≤ 89 + requests s)
main-bounded svc cfg args settings s = (
  (main-Costs {a = 1} {b = 0} svc cfg args settings).run s,
  (main-Costs {a = 0} {b = 1} svc cfg args settings).run s,
)

-- A pass of the recovery never sleeps and makes at most six requests.
pub run_recovery-bounded :
    (svc : Services) (cfg : Config) (s : Machine)
    → (waited (run_recovery svc cfg s).1 ≤ waited s)
      × (requests (run_recovery svc cfg s).1 ≤ 6 + requests s)
run_recovery-bounded svc cfg s = (
  omega (arith, (run_recovery-Costs {a = 1} {b = 0} svc cfg).run s),
  (run_recovery-Costs {a = 0} {b = 1} svc cfg).run s,
)
