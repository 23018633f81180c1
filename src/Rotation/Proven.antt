-- ===== src/Rotation/Proven.antt =====
-- The order of the proof message and the swap, in the history of a machine.
pub mod Grant
pub mod Whole
use postfix_m365_relay.Base.{
  ℕ, ◌≡◌, refl, sym, ◌∙◌, Bool, true, false, not, ◌&&◌, ◌||◌, Option, none, some, List, [], ◌∷◌,
  any, same, arith, Text,
}
use postfix_m365_relay.Machine.Types.{
  minted, Outcome, ok, raised, Event, filed, proof_sent, outlook, stored, History, Slot, live_key,
  live_cert, new_key, new_cert, previous_key, previous_cert, Content, key_pem, cert_pem, State,
  Machine, Services, Config, Certificate, Body,
}
use postfix_m365_relay.Machine.Exec.{Exec, emitted, ◌>>=◌}
use postfix_m365_relay.Machine.Files.{Pair, file_at, replace}
use postfix_m365_relay.Machine.Actions.{stored_in, write_state}
use postfix_m365_relay.Machine.Triple.{
  Triple, Triple-bind, Triple-before, Triple-after, Keeps, After, keeps_rules,
}
use postfix_m365_relay.Machine.Keeps.{IsStable, is_talk, talk_rules}
use postfix_m365_relay.Machine.Stores.{
  write_state-Triple, unlink-Triple, write_file-Triple, replace-Triple,
}
use postfix_m365_relay.Rotation.Frame.{remove_key-Keeps, await_replication-Keeps, prove_token-Keeps}
use postfix_m365_relay.Rotation.Steps.{swap_pairs}

-- Was the bearer token granted to the certificate of this thumbprint?
abbrev pub is_grant_of : Text → Text → Event → Bool
is_grant_of digest bearer (minted outlook used (ok token)) = same used digest && same token bearer
is_grant_of digest bearer _ = false

abbrev pub granted : Text → Text → History → Bool
granted digest bearer history = any (is_grant_of digest bearer) history

-- A message that was accepted, under a token that had been granted to the certificate before.
abbrev pub is_proof : Text → Event → History → Bool
is_proof digest (proof_sent bearer used true) history =
    same used digest && granted digest bearer history
is_proof digest _ history = false

-- Has a message been sent with the certificate of this thumbprint?
abbrev pub proven : Text → History → Bool
proven digest [] = false
proven digest (e ∷ history) = is_proof digest e history || proven digest history

-- What may be put in the place of the live certificate, after a history.
abbrev pub may_file : Slot → Option Content → History → Bool
may_file live_cert (some (cert_pem cert)) history = proven cert.digest history
may_file live_cert (some _) history = false
may_file _ _ history = true

abbrev pub is_safe : Event → History → Bool
is_safe (filed slot content) history = may_file slot content history
is_safe _ history = true

-- Every certificate that was made live had been proven before.
abbrev pub guarded : History → Bool
guarded [] = true
guarded (e ∷ history) = is_safe e history && guarded history

abbrev pub IsGuarded : Machine → Type 0
IsGuarded s = guarded s.history ≡ true

-- The new certificate is staged; and it has been proven.
abbrev pub Staged : Certificate → Machine → Type 0
Staged cert s = IsGuarded s × (s.files new_cert ≡ some (cert_pem cert))

abbrev pub Ready : Certificate → Machine → Type 0
Ready cert s =
    IsGuarded s × (s.files new_cert ≡ some (cert_pem cert)) × (proven cert.digest s.history ≡ true)

pub guarded-talk :
    (e : Event) (h : History) → is_talk e ≡ true → guarded h ≡ true → guarded (e ∷ h) ≡ true
guarded-talk e h t g = ground arith

pub proven-later :
    (d : Text) (e : Event) (h : History) → proven d h ≡ true → proven d (e ∷ h) ≡ true
proven-later d e h p = ground arith

pub IsGuarded-stable : IsStable IsGuarded
IsGuarded-stable = record { after = λ e s t h. guarded-talk e s.history t h }

pub Staged-stable : (cert : Certificate) → IsStable (Staged cert)
Staged-stable cert = record { after = λ e s t h. (guarded-talk e s.history t h.0, h.1) }

pub Ready-stable : (cert : Certificate) → IsStable (Ready cert)
Ready-stable cert = record {
  after =
      λ e s t h. (guarded-talk e s.history t h.0, h.1, proven-later cert.digest e s.history h.2);
}

filed_live :
    (c : Content) (cert : Certificate) (h : History)
    → some c ≡ some (cert_pem cert)
    → proven cert.digest h ≡ true
    → guarded h ≡ true
    → (may_file live_cert (some c) h && guarded h) ≡ true
filed_live c cert h e p g = let shape : c ≡ cert_pem cert = cc in rw shape (rw p g)

pub swap_pairs-IsGuarded :
    (cert : Certificate) → Triple (Ready cert) swap_pairs (λ _. IsGuarded) IsGuarded
unfolding swap_pairs
swap_pairs-IsGuarded cert =
    Triple-bind
      (replace-Triple {Q = Ready cert} live_key previous_key (λ s c e h. (h.0, h.1, h.2))
        (λ s h. h.0))
      λ _.
        Triple-bind
          (replace-Triple {Q = Ready cert} live_cert previous_cert (λ s c e h. (h.0, h.1, h.2))
            (λ s h. h.0))
          λ _.
            Triple-bind
              (replace-Triple {Q = Ready cert} new_key live_key (λ s c e h. (h.0, h.1, h.2))
                (λ s h. h.0))
              λ _.
                replace-Triple new_cert live_cert
                  (λ s c e h. filed_live c cert s.history (sym e ∙ h.1) h.2 h.0) (λ s h. h.0)

-- Writing the state breaks none of these.
module _ (svc : Services) (cfg : Config) where
  pub write-IsGuarded : (state : State) → Keeps IsGuarded (write_state svc cfg state)
  write-IsGuarded state = write_state-Triple svc cfg state (λ _ s h. h) (λ _ s h. h) (λ s h. h)

  pub write-Staged :
      (cert : Certificate) (state : State) → Keeps (Staged cert) (write_state svc cfg state)
  write-Staged cert state = write_state-Triple svc cfg state (λ _ s h. h) (λ _ s h. h) (λ s h. h)
