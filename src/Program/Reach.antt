-- ===== src/Program/Reach.antt =====
-- Any sequence of runs of the program.
use postfix_m365_relay.Base.{◌∙◌, none, some, ◌≡◌, Text, Bool, Option, refl, ℕ}
use postfix_m365_relay.Machine.Types.{
  unreadable, State, ok, Content, cert_pem, key_pem, live_cert, live_key, Config, Slot, Machine,
  Services,
}
use postfix_m365_relay.Rotation.Reset.{reset, fresh_start, outgoing, set_aside}
use postfix_m365_relay.Rotation.Listing.{list_keys}
use postfix_m365_relay.Program.{
  is_empty, can_start, parse_key, generate_at, remove_by_id, remove_key_by_hand, with_live,
  generate_only, dispatch, show_keys, certify, gets, online, main, Settings, first_pair,
  CommandLine, renew_certificate,
}
use postfix_m365_relay.Machine.Triple.{
  Keeps-bind, Triple-before, Triple, Keeps-if, Triple-after, Triple-final, Triple-lift, Keeps-pure,
  Triple-fact, Triple-bind, keeps_rules, Keeps,
}
use postfix_m365_relay.Recovery.Standby.{live_files}
use postfix_m365_relay.Program.Coherent.{
  agree-unreadable, shut_out, turn_rules, pass_rules, live_cert-away, live_key-away,
  write_state-IsCoherent, IsCoherent-stable, fitting, LiveOnly, make_certificate-own, IsCoherent,
}
use postfix_m365_relay.Machine.Keeps.{talk_rules, load-Keeps}
use postfix_m365_relay.Machine.Stores.{write_file-Triple}
use postfix_m365_relay.Rotation.Removal.{remove_key_by_hand, remove_classified, remove_target}
use postfix_m365_relay.Machine.Exec.{gets}
use postfix_m365_relay.Rotation.Frame.Run.{run_rotation-Keeps}
use postfix_m365_relay.Rotation.Frame.Turn.{of_TurnRules}
use postfix_m365_relay.Recovery.Frame.{run_recovery-Keeps}
use postfix_m365_relay.Machine.Files.{CertsOpen, Pair}
use postfix_m365_relay.Credential.Thumbprint.{Credential}
use postfix_m365_relay.Rotation.Frame.{remove_key-Keeps}

-- --generate-only, where it is used on a pair of the relay, is used on the live one.
pub data IsUsual : Option (Slot × Slot) → Type 0 where
  no_pair : IsUsual none
  live_pair : IsUsual (some (live_key, live_cert))

-- One run after the other, each with services, a configuration and a command line of its own, and each
-- from the files that the one before it left, however that one ended.
pub data Runs (s : Machine) : Machine → Type 0 where
  start : Runs s s
  then_main :
      {t : Machine} (svc : Services) (cfg : Config) (args : CommandLine) (settings : Settings)
      → IsUsual args.paths
      → CertsOpen svc
      → Runs s t
      → Runs s (main svc cfg args settings t).1

parsed_key : (o : Option Content) (key : ℕ) → parse_key o ≡ ok key → o ≡ some (key_pem key)
parsed_key none key h = cc
parsed_key (some (key_pem k)) key h = cc
parsed_key (some (cert_pem cert)) key h = cc
parsed_key (some unreadable) key h = cc

module _ (svc : Services) (cfg : Config) (opens : CertsOpen svc) where
  -- The certificate is made for the key that was read.
  certified :
      (key : ℕ)
      → Triple
          (LiveOnly key)
          (certify svc cfg key)
          (λ cert s. LiveOnly key s × (cert.public_key ≡ key))
          IsCoherent
  unfolding certify
  certified key = record { run = λ s h. (h, refl) }

  key_read :
      Triple IsCoherent
        (gets (λ s. s.files live_key))
        (λ file s. IsCoherent s × (s.files live_key ≡ file))
        IsCoherent
  unfolding gets
  key_read = record { run = λ s h. (h, refl) }

  renew_certificate-IsCoherent : Keeps IsCoherent (renew_certificate svc cfg live_key live_cert)
  unfolding renew_certificate
  renew_certificate-IsCoherent = Triple-bind key_read λ file.
      Triple-bind (Triple-lift (parse_key file) (λ s h. h.0)) λ key. Triple-fact λ parsed.
        Triple-before (λ s h. (h.0.1, h.0.2, h.1 ∙ parsed_key file key parsed))
          (Triple-bind (certified key) λ cert. Triple-fact λ own.
            Triple-bind
              (write_file-Triple {Q = IsCoherent} svc live_cert (cert_pem cert)
                (λ s h. (fitting _ key cert own h.2, h.0, h.1))
                (λ s e h. shut_out e (opens live_cert s.history refl))
                (λ s h. (agree-unreadable _, h.0, h.1)))
              λ _. Keeps-pure 0)

  first_pair-IsCoherent : Keeps IsCoherent (first_pair svc cfg live_key live_cert)
  unfolding first_pair
  first_pair-IsCoherent = Triple-bind (make_certificate-own svc cfg opens) λ fresh.
      Triple-fact λ own.
        Triple-bind
          (write_file-Triple {Q = LiveOnly fresh.key} svc live_key (key_pem fresh.key)
            (λ s h. (h.1, h.2, refl)) (λ s e h. h) (λ s h. (refl, h.1, h.2)))
          λ _.
            Triple-bind
              (write_file-Triple {Q = IsCoherent} svc live_cert (cert_pem fresh.cert)
                (λ s h. (fitting _ fresh.key fresh.cert own h.2, h.0, h.1))
                (λ s e h. shut_out e (opens live_cert s.history refl))
                (λ s h. (agree-unreadable _, h.0, h.1)))
              λ _. Keeps-pure 0

  fresh_start-IsCoherent : (old : Option Text) → Keeps IsCoherent (fresh_start svc cfg old)
  unfolding fresh_start
  fresh_start-IsCoherent old = Triple-bind (make_certificate-own svc cfg opens) λ fresh.
      Triple-fact λ own.
        Triple-bind
          (write_file-Triple {Q = LiveOnly fresh.key} svc live_key (key_pem fresh.key)
            (λ s h. (h.1, h.2, refl)) (λ s e h. h) (λ s h. (refl, h.1, h.2)))
          λ _.
            Triple-bind
              (write_file-Triple {Q = IsCoherent} svc live_cert (cert_pem fresh.cert)
                (λ s h. (fitting _ fresh.key fresh.cert own h.2, h.0, h.1))
                (λ s e h. shut_out e (opens live_cert s.history refl))
                (λ s h. (agree-unreadable _, h.0, h.1)))
              λ _. search (talk_rules, IsCoherent-stable, write_state-IsCoherent) depth 12

  set_aside-IsCoherent : Keeps IsCoherent set_aside
  unfolding set_aside
  set_aside-IsCoherent =
      Triple-bind (live_key-away live_key live_cert)
        λ _. Triple-after (λ a s h. h.0) (λ s h. h) (live_cert-away live_key live_cert)

  outgoing-IsCoherent : (there : Bool) → Keeps IsCoherent (outgoing there)
  unfolding outgoing
  outgoing-IsCoherent there = search (keeps_rules, load-Keeps, set_aside-IsCoherent) depth 12

  reset-IsCoherent : Keeps IsCoherent (reset svc cfg)
  unfolding reset live_files
  reset-IsCoherent = search (keeps_rules, outgoing-IsCoherent, fresh_start-IsCoherent) depth 12

  generate_only-IsCoherent :
      (reuse : Bool) {paths : Option (Slot × Slot)}
      → IsUsual paths
      → Keeps IsCoherent (generate_only svc cfg reuse paths)
  unfolding generate_only generate_at
  generate_only-IsCoherent reuse no_pair = Keeps-pure 2
  generate_only-IsCoherent reuse live_pair =
      Keeps-if _ (Keeps-pure 2) (Keeps-if reuse renew_certificate-IsCoherent first_pair-IsCoherent)

  list_keys-Keeps : (current : Pair) → Keeps IsCoherent (list_keys svc cfg current)
  unfolding list_keys
  list_keys-Keeps current = search (talk_rules, IsCoherent-stable) depth 12

  remove_target-Keeps :
      (current : Pair) (key_id : Text) (state : State) (target : Option Credential)
      → Keeps IsCoherent (remove_target svc cfg current key_id state target)
  unfolding remove_target remove_classified
  remove_target-Keeps current key_id state none = search (talk_rules, IsCoherent-stable)
  remove_target-Keeps current key_id state (some target) =
      search (talk_rules, IsCoherent-stable, remove_key-Keeps) depth 12

  remove_key_by_hand-Keeps :
      (current : Pair) (key_id : Text)
      → Keeps IsCoherent (remove_key_by_hand svc cfg current key_id)
  unfolding remove_key_by_hand
  remove_key_by_hand-Keeps current key_id =
      search (talk_rules, IsCoherent-stable, remove_target-Keeps) depth 12

  show_keys-Keeps : Keeps IsCoherent (show_keys svc cfg)
  unfolding show_keys
  show_keys-Keeps = search (talk_rules, list_keys-Keeps) depth 12

  with_live-Keeps : (key_id : Option Text) → Keeps IsCoherent (with_live svc cfg key_id)
  unfolding with_live remove_by_id
  with_live-Keeps none =
      run_rotation-Keeps svc cfg (of_TurnRules svc cfg (turn_rules svc cfg opens))
  with_live-Keeps (some key_id) =
      Keeps-if (is_empty key_id)
        (run_rotation-Keeps svc cfg (of_TurnRules svc cfg (turn_rules svc cfg opens)))
        (Keeps-bind (load-Keeps live_key live_cert)
          λ current. remove_key_by_hand-Keeps current key_id)

  dispatch-Keeps : (args : CommandLine) → Keeps IsCoherent (dispatch svc cfg args)
  unfolding dispatch
  dispatch-Keeps args = Keeps-if args.wants_reset reset-IsCoherent (
      Keeps-if args.wants_recover (run_recovery-Keeps svc cfg (pass_rules svc cfg opens))
        (Keeps-if args.wants_list show_keys-Keeps (with_live-Keeps args.remove_key_id)))

  main-IsCoherent :
      (args : CommandLine) (settings : Settings)
      → IsUsual args.paths
      → Keeps IsCoherent (main svc cfg args settings)
  unfolding main online
  main-IsCoherent args settings h =
      Keeps-if args.wants_pair (generate_only-IsCoherent args.reuse_key h) (
        Keeps-if _ (Keeps-pure 2)
          (Keeps-if (can_start settings) (dispatch-Keeps args) (Keeps-pure 1)))

-- In the pair in use, the staged pair and the standby, wherever both files are there and readable the
-- certificate is one for the key. Any sequence of runs of the program keeps this, whatever the
-- services answered, whatever the command lines and settings were, and also where runs ended by an
-- exception: of a service, of a missing or unreadable file, or of a write that failed, one that left a
-- key or a certificate cut short too. It is assumed that a certificate file can be opened for writing, and
-- --generate-only is used on the live pair or on files that are not the relay's credentials.
pub Runs-IsCoherent : (s t : Machine) → Runs s t → IsCoherent s → IsCoherent t
Runs-IsCoherent s t start h = h
Runs-IsCoherent s t (then_main svc cfg args settings usual opens runs) h =
    Triple-final (main-IsCoherent svc cfg opens args settings usual) _ (Runs-IsCoherent s _ runs h)
