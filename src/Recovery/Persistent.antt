-- ===== src/Recovery/Persistent.antt =====
-- `run_recovery` again and again, while the live certificate stays dead.
use postfix_m365_relay.Base.{
  ap, ◌≤◌, ◌+◌, arith, some, ◌<◌, ◌||◌, none, zero, suc, Text, false, Bool, true, ◌≡◌, Option, refl,
  ℕ,
}
use postfix_m365_relay.Machine.Files.{IsQuiet, Pair}
use postfix_m365_relay.Machine.Types.{Standby, History, Machine, TokenRequest, Config, Services}
use postfix_m365_relay.Recovery.Run.{
  since_of, too_early, streak_of, fresh_at, run_recovery, in_flight,
}
use postfix_m365_relay.Recovery.Outcomes.{asked, state_of, IsLive}
use postfix_m365_relay.Recovery.Evidence.{is_definitive}
use postfix_m365_relay.Recovery.Streak.{
  counted_in, run_recovery-stages, run_recovery-counts, standby_thumbprint, is_early_pass,
  IsFaulted,
}
use postfix_m365_relay.Recovery.Standby.{mint_of}
use postfix_m365_relay.Machine.Actions.{seconds}

module _ (svc : Services) (cfg : Config) where
  -- Is a standby in flight now or after one of the next passes, at most so many?
  abbrev pub standby_within : ℕ → Machine → Bool
  standby_within zero s = in_flight svc cfg (state_of s).recovery
  standby_within (suc passes) s =
      let rest = standby_within passes (run_recovery svc cfg s).1 in
      in_flight svc cfg (state_of s).recovery || rest

  -- Entra refuses every token for a definitive reason, no fresh token is there, and the wait since the
  -- first failure is over.
  pub record IsDead (since : ℕ) : Type 0 where
    pub refuses :
        (request : TokenRequest) (h : History)
        → is_definitive (mint_of (svc.token_endpoint request h)) ≡ true
    pub stale : (h : History) → fresh_at (seconds (svc.now h)) (svc.token_expiry h) ≡ false
    pub long : (h : History) → suc since + cfg.need_seconds ≤ seconds (svc.now h)

  -- So many failures in a row have been counted, the first at this time.
  pub record IsCounted (current : Pair) (streak since : ℕ) (s : Machine) : Type 0 where
    pub live : IsLive current s
    pub idle : (state_of s).recovery ≡ none
    pub counted : streak_of (state_of s).cert_fault_streak ≡ streak
    pub first : (state_of s).cert_fault_since ≡ some (suc since)

  within_now :
      (passes : ℕ) (s : Machine)
      → in_flight svc cfg (state_of s).recovery ≡ true
      → standby_within passes s ≡ true
  within_now zero s h = h
  within_now (suc passes) s h = rw h refl

  within_next :
      (passes : ℕ) (s : Machine)
      → standby_within passes (run_recovery svc cfg s).1 ≡ true
      → standby_within (suc passes) s ≡ true
  within_next passes s h = either (in_flight svc cfg (state_of s).recovery) h
    where
      either : (b : Bool) {c : Bool} → c ≡ true → (b || c) ≡ true
      either true h = refl
      either false h = h

  in_flight_of :
      (o : Option Standby) (digest : Text)
      → standby_thumbprint o ≡ some digest
      → in_flight svc cfg o ≡ true
  in_flight_of none digest h = absurd (cc)
  in_flight_of (some standby) digest h = refl

  module _ (on : cfg.recovery_enabled ≡ true) (wet : cfg.dry_run ≡ false) (quiet : IsQuiet svc)
      (current : Pair) (since : ℕ) (dead : IsDead since) where
    faulted :
        (streak : ℕ) (s : Machine) → IsCounted current streak since s → IsFaulted svc cfg current s
    faulted streak s h =
        let stale = dead.stale s.history in
        record { live = h.live; closer = ground arith; refusal = dead.refuses _ _; idle = h.idle }

    next_pass :
        (streak : ℕ) (s : Machine)
        → IsCounted current streak since s
        → is_early_pass svc cfg current s ≡ true
        → IsCounted current (suc streak) since (run_recovery svc cfg s).1
    next_pass streak s h early =
        let r = run_recovery-counts svc cfg on wet quiet current s (faulted streak s h) early in
        record {
          live = record { key_file = rw r.1 h.live.key_file; cert_file = rw r.1 h.live.cert_file };
          idle = rw r.0 h.idle;
          counted = rw r.0 (ap suc h.counted);
          first = rw r.0 (
              ap (λ o. some (since_of o (seconds (svc.now (asked svc cfg current s).history))))
                h.first);
        }

    early_below :
        (streak : ℕ) (s : Machine)
        → IsCounted current streak since s
        → is_early_pass svc cfg current s ≡ true
        → suc streak < cfg.need_streak
    unfolding too_early
    early_below streak s h early =
        let since_same =
          ap (λ o. since_of o (seconds (svc.now (asked svc cfg current s).history))) h.first in
        let waited = dead.long (counted_in svc cfg current s).history in
        let counted = h.counted in ground arith

    staged :
        (passes streak : ℕ) (s : Machine)
        → IsCounted current streak since s
        → is_early_pass svc cfg current s ≡ false
        → standby_within (suc passes) s ≡ true
    staged passes streak s h late =
        let r = run_recovery-stages svc cfg on wet quiet current s (faulted streak s h) late in
        within_next passes s (within_now passes (run_recovery svc cfg s).1 (in_flight_of _ _ r.4))

    -- A certificate that stays dead, once its first failure is long enough ago, has a standby staged
    -- after at most as many passes as are missing to the streak (and one at least), where no
    -- write of a file fails.
    pub run_recovery-within :
        (passes streak : ℕ) (s : Machine)
        → IsCounted current streak since s
        → cfg.need_streak ≤ suc (streak + passes)
        → standby_within (suc passes) s ≡ true
    run_recovery-within zero streak s h enough = by_pass (is_early_pass svc cfg current s) refl
      where
        by_pass : (b : Bool) → is_early_pass svc cfg current s ≡ b → standby_within 1 s ≡ true
        by_pass false e = staged 0 streak s h e
        by_pass true e = absurd (omega (arith, early_below streak s h e))
    run_recovery-within (suc passes) streak s h enough =
        by_pass (is_early_pass svc cfg current s) refl λ early. within_next (suc passes) s (
          run_recovery-within passes (suc streak) (run_recovery svc cfg s).1
            (next_pass streak s h early) (omega arith))
      where
        by_pass :
            (b : Bool)
            → is_early_pass svc cfg current s ≡ b
            → (is_early_pass svc cfg current s ≡ true → standby_within (suc (suc passes)) s ≡ true)
            → standby_within (suc (suc passes)) s ≡ true
        by_pass false e on_early = staged (suc passes) streak s h e
        by_pass true e on_early = on_early e
