-- ===== src/Recovery/Streak.antt =====
-- The passes that count a definitive fault, until a standby is generated.
use postfix_m365_relay.Machine.Files.{IsQuiet, write_file, Pair}
use postfix_m365_relay.Machine.Types.{
  live_cert, live_key, cert_pem, recovery_cert, key_pem, recovery_key, Standby, Certificate,
  Machine, State, Config, Services,
}
use postfix_m365_relay.Base.{
  zero, arith, ◌||◌, ltb, ◌+◌, ◌≤◌, pos, ltb_ℤ, if◌then◌else◌, Text, Option, refl, ◌∙◌, some, none,
  false, suc, true, ℕ, Bool, ◌≡◌,
}
use postfix_m365_relay.Machine.Actions.{
  days_remaining, certificate_for, cert_action, write_state, clock, read_state, make_certificate,
  seconds, log, stored_in,
}
use postfix_m365_relay.Recovery.Outcomes.{
  run_recovery-asked, live_answer, asked, state_of, looks_closer, IsLive,
}
use postfix_m365_relay.Recovery.Run.{
  count_fault, on_cert_fault, on_fault, fault_at, on_live_mint, decide, streak_of, run_recovery,
  since_of, with_streak, too_early,
}
use postfix_m365_relay.Recovery.Evidence.{is_cert_fault, is_definitive}
use postfix_m365_relay.Recovery.Standby.{minted_ok, mint_failed, generate_standby, Mint, mint_of}
use postfix_m365_relay.Machine.Exec.{◌>>=◌, pure}
use postfix_m365_relay.Credential.Failure.{
  unknown, scope, transient, classify_token_failure, cert_fault, Fault,
}

fault_at_certain :
    (cert : Certificate) (now : ℕ) (fault : Fault)
    → is_cert_fault fault ≡ true
    → fault_at cert now fault ≡ cert_fault
unfolding fault_at
fault_at_certain cert now transient h = absurd (cc)
fault_at_certain cert now scope h = absurd (cc)
fault_at_certain cert now unknown h = absurd (cc)
fault_at_certain cert now cert_fault h = if_same (ltb_ℤ (pos 0) (days_remaining cert now))
  where
    if_same : (b : Bool) → (if b then cert_fault else cert_fault) ≡ cert_fault
    if_same true = refl
    if_same false = refl

begun_at : (n now : ℕ) → 1 ≤ n → since_of (some n) now ≡ n
begun_at zero now h = absurd (omega arith)
begun_at (suc n) now h = refl

-- The thumbprint of the standby that is in flight.
abbrev pub standby_thumbprint : Option Standby → Option Text
standby_thumbprint none = none
standby_thumbprint (some standby) = some standby.thumbprint

module _ (svc : Services) (cfg : Config) where
  -- The streak and the time of its first pass, as a pass records them.
  abbrev streak_after : State → ℕ
  streak_after state = suc (streak_of state.cert_fault_streak)

  abbrev since_after : Pair → Machine → ℕ
  since_after current s =
      since_of (state_of s).cert_fault_since (seconds (svc.now (asked svc cfg current s).history))

  -- The machine after the pass has counted_in the fault.
  abbrev pub counted_in : Pair → Machine → Machine
  counted_in current s =
      stored_in svc cfg
        (with_streak (streak_after (state_of s)) (since_after current s) (state_of s))
        (asked svc cfg current s)

  abbrev pub is_early_pass : Pair → Machine → Bool
  is_early_pass current s =
      too_early svc cfg (streak_after (state_of s)) (since_after current s)
        (seconds (svc.now (counted_in current s).history))

  -- The live certificate is refused for a definitive reason, and no standby is there yet.
  pub record IsFaulted (current : Pair) (s : Machine) : Type 0 where
    pub live : IsLive current s
    pub closer : looks_closer svc cfg s ≡ true
    pub refusal : is_definitive (mint_of (live_answer svc cfg current s)) ≡ true
    pub idle : (state_of s).recovery ≡ none

  module _ (on : cfg.recovery_enabled ≡ true) (wet : cfg.dry_run ≡ false) (quiet : IsQuiet svc)
      (current : Pair) (s : Machine) (h : IsFaulted current s) where
    run_recovery-decide :
        run_recovery svc cfg s
        ≡ decide svc cfg
            (streak_after (state_of s))
            (since_after current s)
            (seconds (svc.now (counted_in current s).history))
            (counted_in current s)
    unfolding on_live_mint on_fault on_cert_fault count_fault clock write_state ◌>>=◌
    run_recovery-decide =
        run_recovery-asked svc cfg current s on h.live h.closer
        ∙ by_mint (mint_of (live_answer svc cfg current s)) h.refusal
      where
        by_mint :
            (m : Mint)
            → is_definitive m ≡ true
            → on_live_mint svc cfg current (state_of s) m (asked svc cfg current s)
              ≡ decide svc cfg
                  (streak_after (state_of s))
                  (since_after current s)
                  (seconds (svc.now (counted_in current s).history))
                  (counted_in current s)
        by_mint minted_ok d = absurd (cc)
        by_mint (mint_failed status body) d = simp (
          fault_at_certain current.cert (svc.now (asked svc cfg current s).history)
              (classify_token_failure status body) d,
          h.idle,
          wet,
          quiet,
        )

    -- Before the thresholds are reached, a pass records one more failure, keeps the time of the first,
    -- and leaves the files alone.
    pub run_recovery-counts :
        is_early_pass current s ≡ true
        → let r = (run_recovery svc cfg s).1 in
          (r.saved
            ≡ some (with_streak (streak_after (state_of s)) (since_after current s) (state_of s)))
          × (r.files ≡ s.files)
    unfolding decide log pure ◌>>=◌
    run_recovery-counts early = simp (run_recovery-decide, early, wet, quiet) (refl, refl)

    pub run_recovery-stages :
        is_early_pass current s ≡ false
        → let r = (run_recovery svc cfg s).1 in
          let key = svc.generate_key cfg.key_bits (counted_in current s).history in
          let digest = svc.fingerprint key cfg.subject (counted_in current s).history in
          let cert = certificate_for svc cfg key digest (svc.now (counted_in current s).history) in
          (r.files recovery_key ≡ some (key_pem key))
          × (r.files recovery_cert ≡ some (cert_pem cert))
          × (r.files live_key ≡ some (key_pem current.key))
          × (r.files live_cert ≡ some (cert_pem current.cert))
          × (standby_thumbprint (state_of r).recovery ≡ some digest)
    unfolding decide generate_standby make_certificate write_file read_state clock write_state log
        cert_action pure ◌>>=◌
    run_recovery-stages late =
        simp (run_recovery-decide, late, wet, quiet, h.live.key_file, h.live.cert_file)
          (refl, refl, refl, refl, refl)

    not_early :
        (streak since : ℕ)
        → (state_of s).cert_fault_streak ≡ some streak
        → (state_of s).cert_fault_since ≡ some since
        → 1 ≤ since
        → cfg.need_streak ≤ suc streak
        → since + cfg.need_seconds ≤ seconds (svc.now (counted_in current s).history)
        → is_early_pass current s ≡ false
    unfolding too_early
    not_early streak since counted first begins enough long =
        let number : streak_of (state_of s).cert_fault_streak ≡ streak = rw counted refl in
        let begun : since_after current s ≡ since = rw first (begun_at since _ begins) in
        let have : cfg.need_streak ≤ streak_after (state_of s) = omega (arith, number, enough) in
        let waited : since_after current s + cfg.need_seconds
            ≤ seconds (svc.now (counted_in current s).history) =
          omega (arith, begun, long) in
        by_numbers cfg.need_streak (streak_after (state_of s)) (since_after current s)
          cfg.need_seconds (seconds (svc.now (counted_in current s).history)) have waited
      where
        by_numbers :
            (need have began wait now : ℕ)
            → need ≤ have
            → began + wait ≤ now
            → (ltb have need || ltb now (began + wait)) ≡ false
        by_numbers need have began wait now h k = ground arith

    -- Once the thresholds are reached, a standby is staged: with this pass as many failures are counted as
    -- the setting asks for, and the first of them is at least so many seconds ago. The standby's thumbprint
    -- is in the state file, its certificate and key are on disk, and the live pair is the one that was
    -- there. The live certificate is refused for a definitive reason, no standby was there, it is no dry run,
    -- no write fails, and the time of the first failure is not 0.
    pub run_recovery-generates :
        (streak since : ℕ)
        → (state_of s).cert_fault_streak ≡ some streak
        → (state_of s).cert_fault_since ≡ some since
        → 1 ≤ since
        → cfg.need_streak ≤ suc streak
        → since + cfg.need_seconds ≤ seconds (svc.now (counted_in current s).history)
        → let r = (run_recovery svc cfg s).1 in
          let key = svc.generate_key cfg.key_bits (counted_in current s).history in
          let digest = svc.fingerprint key cfg.subject (counted_in current s).history in
          let cert = certificate_for svc cfg key digest (svc.now (counted_in current s).history) in
          (r.files recovery_key ≡ some (key_pem key))
          × (r.files recovery_cert ≡ some (cert_pem cert))
          × (r.files live_key ≡ some (key_pem current.key))
          × (r.files live_cert ≡ some (cert_pem current.cert))
          × (standby_thumbprint (state_of r).recovery ≡ some digest)
    run_recovery-generates streak since counted first begins enough long =
        run_recovery-stages (not_early streak since counted first begins enough long)
