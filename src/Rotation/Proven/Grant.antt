-- ===== src/Rotation/Proven/Grant.antt =====
-- The token of the proof message is one that was granted to the new certificate.
use postfix_m365_relay.Base.{
  zero, suc, refl, ℕ, ◌≡◌, Bool, true, false, arith, same_refl, Text, Option, none, some,
}
use postfix_m365_relay.Machine.Types.{
  Outcome, ok, raised, outlook, minted, Certificate, Machine, Services, Config,
}
use postfix_m365_relay.Machine.Exec.{Exec, emitted}
use postfix_m365_relay.Machine.Files.{Pair}
use postfix_m365_relay.Machine.Actions.{token_request, token}
use postfix_m365_relay.Machine.Triple.{
  Triple, Triple-bind, Triple-after, Triple-attempt, Triple-pure, After, Keeps, Keeps-if,
  Keeps-pure,
}
use postfix_m365_relay.Machine.Keeps.{IsStable, log-Keeps, sleep-Keeps}
use postfix_m365_relay.Rotation.Steps.{prove_token, retry_token}
use postfix_m365_relay.Rotation.Proven.{IsGuarded, Staged, Staged-stable, granted}

-- Staged, with a token that was granted to the certificate.
abbrev pub Granted : Certificate → Text → Machine → Type 0
Granted cert bearer s = Staged cert s × (granted cert.digest bearer s.history ≡ true)

pub Granted-stable : (cert : Certificate) (bearer : Text) → IsStable (Granted cert bearer)
Granted-stable cert bearer = record {
  after = λ e s t h. ((Staged-stable cert).after e s t h.0, ground arith);
}

abbrev pub GrantedIf : Certificate → Option Text → Machine → Type 0
GrantedIf cert none s = Staged cert s
GrantedIf cert (some bearer) s = Granted cert bearer s

pub forgetting :
    {A : Type 0} {m : Exec A} (cert : Certificate)
    → Keeps (Staged cert) m
    → Triple (Staged cert) m (λ _. Staged cert) IsGuarded
forgetting cert t = Triple-after (λ a s h. h) (λ s h. h.0) t

pub granting :
    {A : Type 0} {m : Exec A} (cert : Certificate) (bearer : Text)
    → Keeps (Granted cert bearer) m
    → Triple (Granted cert bearer) m (λ _. Granted cert bearer) IsGuarded
granting cert bearer t = Triple-after (λ a s h. h) (λ s h. h.0.0) t

module _ (svc : Services) (cfg : Config) (fresh : Pair) where
  token-Granted :
      Triple
        (Staged fresh.cert)
        (token svc cfg outlook fresh)
        (Granted fresh.cert)
        (Staged fresh.cert)
  unfolding token
  token-Granted = record {
    run = λ s h.
        by_answer
          (svc.token_endpoint (token_request svc cfg outlook fresh (svc.now s.history)) s.history) s
          h;
  }
    where
      by_answer :
          (r : Outcome Text) (s : Machine)
          → Staged fresh.cert s
          → After
              (Granted fresh.cert)
              (Staged fresh.cert)
              r
              (emitted (minted outlook fresh.cert.digest r) s)
      by_answer (ok t) s h =
          let its = same_refl fresh.cert.digest in
          let that = same_refl t in
          (
            (Staged-stable fresh.cert).after (minted outlook fresh.cert.digest (ok t)) s refl h,
            ground arith,
          )
      by_answer (raised e) s h =
          (Staged-stable fresh.cert).after (minted outlook fresh.cert.digest (raised e)) s refl h

  retry_token-Granted :
      (again : Exec (Option Text)) (first : Bool) (r : Outcome Text)
      → Triple (Staged fresh.cert) again (GrantedIf fresh.cert) IsGuarded
      → Triple
          (After (Granted fresh.cert) (Staged fresh.cert) r)
          (retry_token svc cfg again first r)
          (GrantedIf fresh.cert)
          IsGuarded
  retry_token-Granted again first (ok t) h =
      Triple-bind
        (granting fresh.cert t (log-Keeps (Granted-stable fresh.cert t) svc cfg "prove-token" "ok"))
        λ _. Triple-pure (some t) (λ s h. h)
  retry_token-Granted again first (raised e) h =
      Triple-bind
        (forgetting fresh.cert (
          Keeps-if first (log-Keeps (Staged-stable fresh.cert) svc cfg "prove-token" "waiting")
            (Keeps-pure tt)))
        λ _.
          Triple-bind (forgetting fresh.cert (sleep-Keeps (Staged-stable fresh.cert) svc cfg 30))
            λ _. h

  pub prove_token-Granted :
      (first : Bool) (n : ℕ)
      → Triple
          (Staged fresh.cert)
          (prove_token svc cfg fresh first n)
          (GrantedIf fresh.cert)
          IsGuarded
  unfolding prove_token
  prove_token-Granted first zero = Triple-pure none (λ s h. h)
  prove_token-Granted first (suc n) = Triple-bind (Triple-attempt token-Granted) λ answer.
      retry_token-Granted (prove_token svc cfg fresh false n) first answer
        (prove_token-Granted false n)
