-- ===== src/Recovery/Guard/Pass.antt =====
-- `run_recovery` as a whole: what it has seen when the live pair is no longer the one of its start.
use postfix_m365_relay.Machine.Files.{Pair}
use postfix_m365_relay.Recovery.Guard.Adoption.{F}
use postfix_m365_relay.Machine.Types.{cert_pem, Standby, live_cert, Machine, Config, Services}
use postfix_m365_relay.Machine.Exec.{Exec}
use postfix_m365_relay.Machine.Keeps.{IsStable}
use postfix_m365_relay.Base.{◌≡◌, some}
use postfix_m365_relay.Recovery.Evidence.{IsUntouched-stable, IsUntouched}
use postfix_m365_relay.Recovery.Guard.{B}
use postfix_m365_relay.Machine.Triple.{Triple, Keeps}

module _ (svc : Services) (cfg : Config) (start : Machine) where
  abbrev U : Machine → Type 0
  U = IsUntouched svc cfg start

  abbrev ustable : IsStable U
  ustable = IsUntouched-stable svc cfg start

  module _ (current : Pair) (old_live : start.files live_cert ≡ some (cert_pem current.cert)) where
    abbrev Blamed : Machine → Type 0
    Blamed = F svc cfg start current.cert old_live

  abbrev Loaded : Pair → Machine → Type 0
  Loaded pair s = B svc cfg start s × (s.files live_cert ≡ some (cert_pem pair.cert))
