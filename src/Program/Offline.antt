-- ===== src/Program/Offline.antt =====
-- What `main` does without a rotation: --generate-only, and the refusals before any action.
use postfix_m365_relay.Base.{
  ◌&&◌, inl, inr, Bool, arith, pos_part, false, ◌+◌, ltb_ℤ, ◌⊎◌, ◌*◌, some, ◌-◌, true, ◌≡◌, ◌<ℤ◌,
  pos, refl, ℕ,
}
use postfix_m365_relay.Machine.Types.{
  cert_pem, ok, Certificate, raised, Machine, Outcome, Slot, Services, Config,
}
use postfix_m365_relay.Program.{
  fits, is_refused, rotation_window_error, WindowError, main, dispatch, is_oauth_path,
  required_names, lift, pure, parse_key, gets, all_given, write_file, can_start, online, certify,
  generate_at, CommandLine, Settings, renew_certificate, generate_only,
}
use postfix_m365_relay.Machine.Exec.{gets, lift, ◌>>=◌, pure}
use postfix_m365_relay.Machine.Actions.{day, certificate_for, second}
use postfix_m365_relay.Machine.Files.{IsQuiet, update, write_file}
use postfix_m365_relay.Credential.Window.{
  renew_outside, validity_below_one, rotation_window_error-fits, fits,
}

-- The certificate file is replaced by a certificate for the key that is there, which begins five minutes
-- ago and lasts as long as was asked for; no other file is touched.
pub record IsRenewed (svc : Services) (cfg : Config) (cert_slot : Slot) (key : ℕ) (s t : Machine)
    : Type 0 where
  pub cert : Certificate
  pub own : cert.public_key ≡ key
  pub begins_at : cert.not_before ≡ svc.now s.history - 300 * second
  pub lasts_to : cert.not_after ≡ svc.now s.history + pos_part cfg.validity * day
  pub others_kept : t.files ≡ update cert_slot (some (cert_pem cert)) s.files

-- The ways in which --generate-only --reuse-key ends.
abbrev pub Renewal : Services → Config → Slot → Outcome ℕ → Machine → Outcome ℕ × Machine → Type 0
Renewal svc cfg cert_slot (raised e) s r = r ≡ (raised e, s)
Renewal svc cfg cert_slot (ok key) s r = (r.0 ≡ ok 0) × IsRenewed svc cfg cert_slot key s r.1

module _ (svc : Services) (cfg : Config) (quiet : IsQuiet svc) where
  renewed :
      (key_slot cert_slot : Slot) (s : Machine) (r : Outcome ℕ)
      → parse_key (s.files key_slot) ≡ r
      → Renewal svc cfg cert_slot r s (renew_certificate svc cfg key_slot cert_slot s)
  unfolding renew_certificate certify write_file gets lift pure ◌>>=◌
  renewed key_slot cert_slot s (raised e) h = simp (h, quiet) refl
  renewed key_slot cert_slot s (ok key) h =
      simp (h, quiet)
        (
          refl,
          record {
            cert =
                certificate_for svc cfg key (svc.fingerprint key cfg.subject s.history)
                  (svc.now s.history);
            own = refl;
            begins_at = refl;
            lasts_to = refl;
            others_kept = refl;
          },
        )

-- --generate-only --reuse-key with a validity of a day or more loads the key before it touches the
-- certificate: a key that is missing or malformed ends the run with the key's own exception and nothing
-- written, and otherwise only the certificate file changes, to a certificate for that key that lasts the
-- validity. No write of a file fails.
pub generate_only-Renewal :
    (svc : Services) (cfg : Config) (key_slot cert_slot : Slot) (s : Machine)
    → pos 0 <ℤ cfg.validity
    → IsQuiet svc
    → Renewal svc cfg cert_slot
        (parse_key (s.files key_slot))
        s
        (generate_only svc cfg true (some (key_slot, cert_slot)) s)
unfolding generate_only generate_at
generate_only-Renewal svc cfg key_slot cert_slot s h quiet =
    let lasting : ltb_ℤ cfg.validity (pos 1) ≡ false = ground arith in
    simp lasting (renewed svc cfg quiet key_slot cert_slot s _ refl)

-- What an online run needs, beside its command line.
pub record IsReady (cfg : Config) (settings : Settings) : Type 0 where
  pub window : (pos 0 <ℤ cfg.renew_at) × (cfg.renew_at <ℤ cfg.validity)
  pub required : all_given required_names settings.env ≡ true
  pub key_folder : is_oauth_path settings.key_path ≡ true
  pub cert_folder : is_oauth_path settings.cert_path ≡ true

abbrev pub Refused : Machine → Outcome ℕ × Machine → Type 0
Refused s r = (r ≡ (ok 2, s)) ⊎ (r ≡ (ok 1, s))

parts_of : (a b c : Bool) → (a && b && c) ≡ true → (a ≡ true) × (b ≡ true) × (c ≡ true)
parts_of a b c h = ground arith

can_start-IsReady :
    (cfg : Config) (settings : Settings)
    → rotation_window_error cfg.validity cfg.renew_at ≡ fits
    → can_start settings ≡ true
    → IsReady cfg settings
unfolding can_start
can_start-IsReady cfg settings h k =
    let parts =
      parts_of (all_given required_names settings.env) (is_oauth_path settings.key_path)
        (is_oauth_path settings.cert_path) k in
    record {
      window = (rotation_window_error-fits cfg.validity cfg.renew_at).0 h;
      required = parts.0;
      key_folder = parts.1;
      cert_folder = parts.2;
    }

IsReady-can_start :
    (cfg : Config) (settings : Settings) → IsReady cfg settings → can_start settings ≡ true
unfolding can_start
IsReady-can_start cfg settings ready =
    simp (ready.required, ready.key_folder, ready.cert_folder) refl

module _ (svc : Services) (cfg : Config) (args : CommandLine) (settings : Settings)
    (s : Machine) where
  abbrev OnlineCase : Type 0
  OnlineCase =
      (IsReady cfg settings × (online svc cfg args settings s ≡ dispatch svc cfg args s))
      ⊎ ((¬ IsReady cfg settings) × Refused s (online svc cfg args settings s))

  unfitting :
      (e : WindowError)
      → rotation_window_error cfg.validity cfg.renew_at ≡ e
      → is_refused e ≡ true
      → OnlineCase
  unfolding online pure
  unfitting e h k = inr (
    λ ready.
        let fit : rotation_window_error cfg.validity cfg.renew_at ≡ fits =
          (rotation_window_error-fits cfg.validity cfg.renew_at).1 ready.window in
        cc (h, k, fit),
    inl (simp (h, k) refl),
  )

  by_settings :
      rotation_window_error cfg.validity cfg.renew_at ≡ fits
      → (b : Bool) → can_start settings ≡ b
      → OnlineCase
  unfolding online pure
  by_settings h true k = inl (can_start-IsReady cfg settings h k, simp (h, k) refl)
  by_settings h false k =
      inr (λ ready. cc (k, IsReady-can_start cfg settings ready), inr (simp (h, k) refl))

  by_window : (e : WindowError) → rotation_window_error cfg.validity cfg.renew_at ≡ e → OnlineCase
  by_window fits h = by_settings h (can_start settings) refl
  by_window validity_below_one h = unfitting _ h refl
  by_window renew_outside h = unfitting _ h refl

pub main-OnlineCase :
    (svc : Services) (cfg : Config) (args : CommandLine) (settings : Settings) (s : Machine)
    → args.wants_pair ≡ false
    → (IsReady cfg settings × (main svc cfg args settings s ≡ dispatch svc cfg args s))
      ⊎ ((¬ IsReady cfg settings) × Refused s (main svc cfg args settings s))
unfolding main
main-OnlineCase svc cfg args settings s h = simp h (by_window svc cfg args settings s _ refl)
