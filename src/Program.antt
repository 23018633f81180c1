-- ===== src/Program.antt =====
-- `main` of scripts/rotate-smtp-relay-cert.py: which of its actions a command line selects.
pub mod Offline
pub mod Coherent
pub mod Reach
pub mod Bounded
use postfix_m365_relay.Base.{
  pos, ltb_ℤ, if◌then◌else◌, same, none, true, some, any, [], ◌&&◌, ◌∷◌, codes, not, false, Option,
  Bool, List, Text, refl, ℕ,
}
use postfix_m365_relay.Machine.Types.{
  key_pem, cert_pem, generated, live_cert, live_key, ok, Certificate, Slot, Config, Services,
}
use postfix_m365_relay.Environment.{all_given, Env}
use postfix_m365_relay.Credential.Window.{rotation_window_error, fits, WindowError}
use postfix_m365_relay.Credential.Thumbprint.{or_empty}
use postfix_m365_relay.Machine.Exec.{◌>>◌, emitted, lift, gets, ◌>>=◌, pure, emit, Exec}
use postfix_m365_relay.Rotation.Listing.{list_keys, Listing}
use postfix_m365_relay.Rotation.Run.{run_rotation}
use postfix_m365_relay.Machine.Actions.{certificate_for, make_certificate}
use postfix_m365_relay.Machine.Files.{write_file, parse_key, load}
use postfix_m365_relay.Rotation.Reset.{reset}
use postfix_m365_relay.Credential.Owner.{is_empty}
use postfix_m365_relay.Recovery.Run.{run_recovery}
use postfix_m365_relay.Rotation.Removal.{remove_key_by_hand}

-- The command line, beside what `Config` holds of it. `paths` is --key-path and --cert-path.
pub record CommandLine : Type 0 where
  pub wants_pair : Bool
  pub reuse_key : Bool
  pub paths : Option (Slot × Slot)
  pub wants_reset : Bool
  pub wants_recover : Bool
  pub wants_list : Bool
  pub remove_key_id : Option Text

-- `"/inbound-tls/" in f"{resolved}/" or resolved.parent.name != "secrets"`, negated, of a resolved path
-- from its folders and the folder that it is in.
abbrev pub last_of : Text → Option Text → List Text → Option Text
last_of part before [] = before
last_of part before (next ∷ parts) = last_of next (some part) parts

-- The name of the folder that the last part of a path is in.
abbrev pub parent_name : List Text → Text
parent_name [] = []
parent_name (part ∷ parts) = or_empty (last_of part none parts)

unfoldable pub is_oauth_path : List Text → Bool
is_oauth_path parts =
    not (any (λ part. same part (codes "inbound-tls")) parts)
    && same (parent_name parts) (codes "secrets")

-- The settings that `main` reads before it builds the `Rotation`.
pub record Settings : Type 0 where
  pub env : Env
  pub key_path : List Text
  pub cert_path : List Text

abbrev pub required_names : List Text
required_names =
    codes "MAIL_RELAY_TENANT" ∷ codes "MAIL_RELAY_CLIENT_ID" ∷ codes "MAIL_SEND_MAILBOX" ∷ []

unfoldable pub can_start : Settings → Bool
can_start settings =
    all_given required_names settings.env
    && is_oauth_path settings.key_path
    && is_oauth_path settings.cert_path

abbrev pub is_refused : WindowError → Bool
is_refused fits = false
is_refused _ = true

module _ (svc : Services) (cfg : Config) where
  -- `make_certificate` with the key that it is given.
  unfoldable pub certify : ℕ → Exec Certificate
  unfolding emit ◌>>=◌ pure
  certify key s =
      let digest = svc.fingerprint key cfg.subject s.history in
      (ok (certificate_for svc cfg key digest (svc.now s.history)), emitted (generated digest) s)

  unfoldable pub renew_certificate : Slot → Slot → Exec ℕ
  renew_certificate key_slot cert_slot = do
    key_file ← gets (λ s. s.files key_slot)
    key ← lift (parse_key key_file)
    cert ← certify key
    write_file svc cert_slot (cert_pem cert)
    pure 0

  unfoldable pub first_pair : Slot → Slot → Exec ℕ
  first_pair key_slot cert_slot = do
    fresh ← make_certificate svc cfg
    write_file svc key_slot (key_pem fresh.key)
    write_file svc cert_slot (cert_pem fresh.cert)
    pure 0

  -- `--generate-only`; a status of 2 is the parser's.
  unfoldable pub generate_at : Bool → Slot → Slot → Exec ℕ
  unfolding renew_certificate first_pair
  generate_at reuse key_slot cert_slot =
      if ltb_ℤ cfg.validity (pos 1)
      then pure 2
      else if reuse
      then renew_certificate key_slot cert_slot
      else first_pair key_slot cert_slot

  unfoldable pub generate_only : Bool → Option (Slot × Slot) → Exec ℕ
  unfolding generate_at
  generate_only reuse none = pure 2
  generate_only reuse (some (key_slot, cert_slot)) = generate_at reuse key_slot cert_slot

  abbrev pub listing_status : Option Listing → ℕ
  listing_status none = 1
  listing_status (some listing) = 0

  unfoldable pub show_keys : Exec ℕ
  show_keys = do
    current ← load live_key live_cert
    listing ← list_keys svc cfg current
    pure (listing_status listing)

  unfoldable pub remove_by_id : Text → Exec ℕ
  remove_by_id key_id = do
    current ← load live_key live_cert
    remove_key_by_hand svc cfg current key_id

  -- `if args.remove_key_id`: an empty text is no request.
  unfoldable pub with_live : Option Text → Exec ℕ
  unfolding remove_by_id
  with_live none = run_rotation svc cfg
  with_live (some key_id) = if is_empty key_id then run_rotation svc cfg else remove_by_id key_id

  unfoldable pub dispatch : CommandLine → Exec ℕ
  unfolding show_keys with_live
  dispatch args =
      if args.wants_reset
      then reset svc cfg
      else if args.wants_recover
      then run_recovery svc cfg
      else if args.wants_list
      then show_keys
      else with_live args.remove_key_id

  unfoldable pub online : CommandLine → Settings → Exec ℕ
  unfolding dispatch
  online args settings =
      if is_refused (rotation_window_error cfg.validity cfg.renew_at)
      then pure 2
      else if can_start settings
      then dispatch args
      else pure 1

  unfoldable pub main : CommandLine → Settings → Exec ℕ
  unfolding generate_only online
  main args settings =
      if args.wants_pair then generate_only args.reuse_key args.paths else online args settings
