-- ===== src/Rotation/Reset.antt =====
-- `--reset`: a new live pair from scratch, which an operator uploads again.
pub mod Fresh
use postfix_m365_relay.Base.{not, some, if◌then◌else◌, none, Text, Option, Bool, refl, ℕ}
use postfix_m365_relay.Machine.Exec.{attempt, ◌>>=◌, ◌>>◌}
use postfix_m365_relay.Machine.Files.{write_file, load, replace, Pair}
use postfix_m365_relay.Machine.Types.{
  previous_cert, cert_pem, live_cert, key_pem, previous_key, live_key, raised, ok, Config, State,
  Services, Outcome,
}
use postfix_m365_relay.Machine.Exec.{pure, Exec}
use postfix_m365_relay.Recovery.Standby.{live_files}
use postfix_m365_relay.Machine.Actions.{
  cert_action, log, seconds, write_state, clock, read_state, make_certificate,
}

-- `_load` in a `try`: the thumbprint of the pair that is replaced, and none where it cannot be read.
abbrev pub thumbprint_of_loaded : Outcome Pair → Option Text
thumbprint_of_loaded (ok pair) = some pair.cert.digest
thumbprint_of_loaded (raised e) = none

unfoldable pub set_aside : Exec (Unit {0})
set_aside = do replace live_key previous_key; replace live_cert previous_cert

-- The pair that is there, readable or not, is kept as .previous.
unfoldable pub outgoing : Bool → Exec (Option Text)
outgoing there =
    if there
    then (do
      loaded ← attempt (load live_key live_cert)
      set_aside
      pure (thumbprint_of_loaded loaded))
    else pure none

abbrev pub without_rotation : State → State
without_rotation state = record state {
  pending_addition = none;
  pending_removal = none;
  recovery = none;
}

abbrev pub with_replaced : Option Text → ℕ → State → State
with_replaced none now state = state
with_replaced (some thumbprint) now state = record state {
  reset_replaced = some (record { thumbprint = thumbprint; generated_at = now });
}

module _ (svc : Services) (cfg : Config) where
  unfoldable pub fresh_start : Option Text → Exec ℕ
  fresh_start old = do
    fresh ← make_certificate svc cfg
    write_file svc live_key (key_pem fresh.key)
    write_file svc live_cert (cert_pem fresh.cert)
    state ← read_state
    now ← clock svc cfg
    write_state svc cfg (with_replaced old (seconds now) (without_rotation state))
    log svc cfg "reset" "ok"
    cert_action svc cfg "require"
    pure 0

  unfoldable pub reset : Exec ℕ
  unfolding outgoing fresh_start
  reset =
      if not cfg.yes_flag
      then pure 1
      else (do there ← live_files; old ← outgoing there; fresh_start old)
