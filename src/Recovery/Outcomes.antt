-- ===== src/Recovery/Outcomes.antt =====
-- What one pass of the recovery leaves, for each answer to the live certificate's token request.
use postfix_m365_relay.Machine.Files.{IsQuiet, unlink, load, Pair}
use postfix_m365_relay.Machine.Types.{
  append_log, recovery_cert, recovery_key, Standby, noted, ok, cert_pem, live_cert, key_pem,
  outlook, minted, Outcome, Config, live_key, State, Services, Machine,
}
use postfix_m365_relay.Machine.Exec.{Exec, resume, pure, lift, gets, ◌>>=◌, attempt, emitted}
use postfix_m365_relay.Base.{
  none, ℕ, Option, if◌then◌else◌, String, refl, arith, false, ◌&&◌, not, ◌||◌, some, true, Text,
  Bool, ◌≡◌,
}
use postfix_m365_relay.Machine.Actions.{
  written, cert_action, write_state, clock, log, token_request, token, seconds, read_state,
  or_empty_state,
}
use postfix_m365_relay.Recovery.Run.{
  fault_at, on_fault, on_healed, on_live_mint, on_live, examine, fresh_at, token_is_fresh,
  run_recovery, in_flight,
}
use postfix_m365_relay.Recovery.Standby.{
  mint_failed, discard_standby, mint_of, try_mint, live_files,
}
use postfix_m365_relay.Recovery.Evidence.{is_cert_fault}
use postfix_m365_relay.Credential.Failure.{
  cert_fault, unknown, scope, transient, Fault, classify_token_failure,
}

abbrev pub state_of : Machine → State
state_of s = or_empty_state s.saved

-- `current` is the pair on disk.
pub record IsLive (current : Pair) (s : Machine) : Type 0 where
  pub key_file : s.files live_key ≡ some (key_pem current.key)
  pub cert_file : s.files live_cert ≡ some (cert_pem current.cert)

module _ (svc : Services) (cfg : Config) where
  -- The shortcut for a working relay is not taken.
  abbrev pub looks_closer : Machine → Bool
  looks_closer s =
      in_flight svc cfg (state_of s).recovery
      || not (fresh_at (seconds (svc.now s.history)) (svc.token_expiry s.history))

  abbrev pub live_answer : Pair → Machine → Outcome Text
  live_answer current s =
      svc.token_endpoint (token_request svc cfg outlook current (svc.now s.history)) s.history

  -- The machine after the live certificate's token request.
  abbrev pub asked : Pair → Machine → Machine
  asked current s = emitted (minted outlook current.cert.digest (live_answer current s)) s

  logged :
      (outcome : String) (t : Machine)
      → let m : Exec ℕ = (log svc cfg "recover" outcome >>= λ _. pure 0) in
        let r = (m t).1 in (r.files ≡ t.files) × (r.saved ≡ t.saved)
  unfolding log ◌>>=◌ pure
  logged outcome t = by_flags cfg.dry_run (svc.fails append_log t.history)
    where
      by_flags :
          (b f : Bool)
          → let n : Outcome (Unit {0}) × Machine =
              (if b
                then (ok tt, t)
                else written svc cfg f append_log (emitted (noted "recover" outcome) t) t) in
            let m : Exec ℕ = λ u. (ok 0, u) in
            let r = (resume n.0 (λ _. m) n.1).1 in (r.files ≡ t.files) × (r.saved ≡ t.saved)
      by_flags true f = (refl, refl)
      by_flags false true = (refl, refl)
      by_flags false false = (refl, refl)

  module _ (current : Pair) (s : Machine) (on : cfg.recovery_enabled ≡ true)
      (live : IsLive current s) (closer : looks_closer s ≡ true) where
    pub run_recovery-asked :
        run_recovery svc cfg s
        ≡ on_live_mint svc cfg current
            (state_of s)
            (mint_of (live_answer current s))
            (asked current s)
    unfolding run_recovery read_state token_is_fresh examine live_files load on_live try_mint token
        attempt ◌>>=◌ gets lift pure
    run_recovery-asked =
        let shortcut : (not (in_flight svc cfg (state_of s).recovery)
              && fresh_at (seconds (svc.now s.history)) (svc.token_expiry s.history))
            ≡ false =
          ground arith in
        simp (on, shortcut, live.key_file, live.cert_file)

    -- A failure that is no certificate fault changes no file and not the state: the pass only waits.
    pub run_recovery-waits :
        (status : Option ℕ) (body : Text)
        → mint_of (live_answer current s) ≡ mint_failed status body
        → is_cert_fault (
            fault_at current.cert
              (svc.now (asked current s).history)
              (classify_token_failure status body))
          ≡ false
        → ((run_recovery svc cfg s).1.files ≡ s.files)
          × ((run_recovery svc cfg s).1.saved ≡ s.saved)
    unfolding on_live_mint on_fault clock ◌>>=◌
    run_recovery-waits status body failed kind =
        rw (run_recovery-asked, failed)
          (held
            (fault_at current.cert (svc.now (asked current s).history)
              (classify_token_failure status body))
            kind)
      where
        held :
            (fault : Fault)
            → is_cert_fault fault ≡ false
            → let r = (on_fault svc cfg current (state_of s) fault (asked current s)).1 in
              (r.files ≡ s.files) × (r.saved ≡ s.saved)
        held transient k = logged "waiting" (asked current s)
        held scope k = logged "note" (asked current s)
        held unknown k = logged "waiting" (asked current s)
        held cert_fault k = absurd (cc)

    module _ (wet : cfg.dry_run ≡ false) (quiet : IsQuiet svc) where
      -- Where the certificate works again while a standby is in flight, the files of the standby and the
      -- records of the standby and of the fault, its streak and its time, are gone; the live pair and what
      -- is recorded of keys to be settled or removed are as before. It is no dry run, and no write of a
      -- file fails.
      pub run_recovery-heals :
          (bearer : Text) (standby : Standby)
          → live_answer current s ≡ ok bearer
          → (state_of s).recovery ≡ some standby
          → let r = (run_recovery svc cfg s).1 in
            (r.files recovery_key ≡ none)
            × (r.files recovery_cert ≡ none)
            × (r.files live_key ≡ some (key_pem current.key))
            × (r.files live_cert ≡ some (cert_pem current.cert))
            × ((state_of r).recovery ≡ none)
            × ((state_of r).cert_fault_streak ≡ none)
            × ((state_of r).cert_fault_since ≡ none)
            × ((state_of r).pending_addition ≡ (state_of s).pending_addition)
            × ((state_of r).pending_removal ≡ (state_of s).pending_removal)
      unfolding on_live_mint on_healed discard_standby unlink write_state cert_action log pure ◌>>=◌
      run_recovery-heals bearer standby works flight =
          simp (run_recovery-asked, works, flight, wet, quiet, live.key_file, live.cert_file)
            (refl, refl, refl, refl, refl, refl, refl, refl, refl)
