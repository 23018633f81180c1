-- ===== src/Rotation/Reset/Fresh.antt =====
-- What a reset leaves, whatever was there before.
use postfix_m365_relay.Base.{
  Text, ◌&&◌, ◌||◌, none, some, arith, false, Bool, true, ◌≡◌, ◌==◌, Option, refl, ℕ,
}
use postfix_m365_relay.Machine.Files.{IsQuiet, set_file, replace, file_at, write_file, load}
use postfix_m365_relay.Machine.Types.{
  previous_key, previous_cert, live_cert, cert_pem, live_key, ok, key_pem, Outcome, State, Machine,
  Config, Content, Slot, Services,
}
use postfix_m365_relay.Machine.Triple.{Triple-after, Triple-final}
use postfix_m365_relay.Rotation.Reset.{
  thumbprint_of_loaded, set_aside, outgoing, reset, ◌>>=◌, pure, cert_action, log, write_state,
  clock, read_state, make_certificate, fresh_start,
}
use postfix_m365_relay.Machine.Stores.{load-Triple}
use postfix_m365_relay.Machine.Actions.{
  read_state, make_certificate, cert_action, log, write_state, clock,
}
use postfix_m365_relay.Machine.Exec.{attempt, gets, ◌>>=◌, pure}
use postfix_m365_relay.Recovery.Standby.{live_files, is_there}
use postfix_m365_relay.Recovery.Outcomes.{}

load-same : (k c : Slot) (s : Machine) → (load k c s).1 ≡ s
load-same k c s =
    Triple-final {R = λ t. t ≡ s}
      (Triple-after (λ a t h. h.0) (λ t h. h) (load-Triple {P = λ t. t ≡ s} k c)) s refl

-- Are these the key and the certificate of one pair?
abbrev pub is_pair : Option Content → Option Content → Bool
is_pair (some (key_pem key)) (some (cert_pem cert)) = key == cert.public_key
is_pair _ _ = false

abbrev pub has_rotation : Option State → Bool
has_rotation none = false
has_rotation (some state) =
    elim state.pending_addition [ none ↦ false | some a ↦ true ]
    || elim state.pending_removal [ none ↦ false | some a ↦ true ]
    || elim state.recovery [ none ↦ false | some a ↦ true ]

-- `rotation.key_path.is_file() and rotation.cert_path.is_file()`
abbrev live_there : Machine → Bool
live_there s = is_there (s.files live_key) && is_there (s.files live_cert)

eq_refl : (n : ℕ) → (n == n) ≡ true
eq_refl n = ground arith

abbrev pub IsFresh : Outcome ℕ × Machine → Type 0
IsFresh r =
    (r.0 ≡ ok 0)
    × (is_pair (r.1.files live_key) (r.1.files live_cert) ≡ true)
    × (has_rotation r.1.saved ≡ false)

module _ (svc : Services) (cfg : Config) (sure : cfg.yes_flag ≡ true) (wet : cfg.dry_run ≡ false)
    (quiet : IsQuiet svc) where
  fresh_start-IsFresh : (old : Option Text) (s : Machine) → IsFresh (fresh_start svc cfg old s)
  unfolding fresh_start make_certificate write_file read_state clock write_state log cert_action
      pure ◌>>=◌
  fresh_start-IsFresh none s = simp (wet, quiet) (refl, eq_refl _, refl)
  fresh_start-IsFresh (some thumbprint) s = simp (wet, quiet) (refl, eq_refl _, refl)

  module _ (s : Machine) where
    absent : live_there s ≡ false → IsFresh (reset svc cfg s)
    unfolding reset live_files outgoing gets pure ◌>>=◌
    absent h = simp (sure, h) (fresh_start-IsFresh none s)

    module _ (key cert : Content) (key_file : s.files live_key ≡ some key)
        (cert_file : s.files live_cert ≡ some cert) where
      -- The machine once the old pair has been set aside.
      abbrev aside : Machine
      aside = file_at live_cert none (
          file_at previous_cert (some cert)
            (file_at live_key none (file_at previous_key (some key) s)))

      reset-aside :
          reset svc cfg s
          ≡ fresh_start svc cfg (thumbprint_of_loaded (load live_key live_cert s).0) aside
      unfolding reset live_files outgoing set_aside replace set_file attempt gets pure ◌>>=◌
      reset-aside = simp (sure, load-same live_key live_cert s, key_file, cert_file) refl

  fresh_start-previous :
      (old : Option Text) (s : Machine)
      → ((fresh_start svc cfg old s).1.files previous_key ≡ s.files previous_key)
        × ((fresh_start svc cfg old s).1.files previous_cert ≡ s.files previous_cert)
  unfolding fresh_start make_certificate write_file read_state clock write_state log cert_action
      pure ◌>>=◌
  fresh_start-previous none s = simp (wet, quiet) (refl, refl)
  fresh_start-previous (some thumbprint) s = simp (wet, quiet) (refl, refl)

-- A confirmed reset ends well from any state of the files, missing or corrupt ones too: the live key and
-- certificate are one pair, and no half-finished rotation, removal or recovery is recorded. It is no dry
-- run, and no write of a file fails.
pub reset-IsFresh :
    (svc : Services) (cfg : Config) (s : Machine)
    → cfg.yes_flag ≡ true
    → cfg.dry_run ≡ false
    → IsQuiet svc
    → IsFresh (reset svc cfg s)
reset-IsFresh svc cfg s sure wet quiet = by_files (s.files live_key) (s.files live_cert) refl refl
  where
    by_files :
        (k c : Option Content)
        → s.files live_key ≡ k
        → s.files live_cert ≡ c
        → IsFresh (reset svc cfg s)
    by_files none c h e = absent svc cfg sure wet quiet s (rw h refl)
    by_files (some k) none h e = absent svc cfg sure wet quiet s (rw (h, e) refl)
    by_files (some k) (some c) h e =
        rw (reset-aside svc cfg sure wet quiet s k c h e)
          (fresh_start-IsFresh svc cfg sure wet quiet _ _)

-- Where both files are there, readable or not, a confirmed reset keeps them as the previous pair.
pub reset-previous :
    (svc : Services) (cfg : Config) (s : Machine) (key cert : Content)
    → cfg.yes_flag ≡ true
    → cfg.dry_run ≡ false
    → IsQuiet svc
    → s.files live_key ≡ some key
    → s.files live_cert ≡ some cert
    → ((reset svc cfg s).1.files previous_key ≡ some key)
      × ((reset svc cfg s).1.files previous_cert ≡ some cert)
reset-previous svc cfg s key cert sure wet quiet h e =
    rw (reset-aside svc cfg sure wet quiet s key cert h e)
      (fresh_start-previous svc cfg sure wet quiet _ _)
