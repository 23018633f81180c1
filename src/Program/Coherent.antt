-- ===== src/Program/Coherent.antt =====
-- The key and the certificate of a pair belong together, after every action of the program.
use postfix_m365_relay.Base.{
  false, Text, ◌∙◌, sym, ap, arith, some, true, none, Bool, ◌≡◌, Option, ◌==◌, refl, ℕ,
}
use postfix_m365_relay.Machine.Types.{
  Certificate, previous_cert, recovery_cert, unreadable, previous_key, cert_pem, recovery_key,
  key_pem, new_cert, new_key, State, live_key, Config, Content, live_cert, Services, Slot, Machine,
}
use postfix_m365_relay.Rotation.Steps.{
  added_key, add_key, unlink_staged, stage_certificate, swap_pairs,
}
use postfix_m365_relay.Machine.Keeps.{graph-Keeps, talk_rules, proof-Keeps, IsStable}
use postfix_m365_relay.Machine.Triple.{Keeps-bind, Triple-fact, Triple, Triple-bind, Keeps}
use postfix_m365_relay.Machine.Stores.{
  write_file-Triple, unlink-Triple, write_state-Triple, replace-Triple,
}
use postfix_m365_relay.Machine.Actions.{make_certificate, write_state}
use postfix_m365_relay.Recovery.Standby.{generate_standby, discard_standby, swap_standby}
use postfix_m365_relay.Machine.Files.{CertsOpen, replace, Pair}
use postfix_m365_relay.Recovery.Frame.{PassRules}
use postfix_m365_relay.Rotation.Frame.Turn.{TurnRules}

-- Where a key file and a certificate file are both there and readable, is the certificate one for the key?
abbrev pub agree : Option Content → Option Content → Bool
agree (some (key_pem key)) (some (cert_pem cert)) = key == cert.public_key
agree _ _ = true

-- The pair in use, the staged pair and the standby. The pair kept as .previous is not among them: a swap
-- that is cut short leaves it half replaced.
abbrev pub IsCoherent : Machine → Type 0
IsCoherent s =
    (agree (s.files live_key) (s.files live_cert) ≡ true)
    × (agree (s.files new_key) (s.files new_cert) ≡ true)
    × (agree (s.files recovery_key) (s.files recovery_cert) ≡ true)

agree-none : (key : Option Content) → agree key none ≡ true
agree-none none = refl
agree-none (some (key_pem key)) = refl
agree-none (some (cert_pem cert)) = refl
agree-none (some unreadable) = refl

pub agree-unreadable : (key : Option Content) → agree key (some unreadable) ≡ true
agree-unreadable none = refl
agree-unreadable (some (key_pem key)) = refl
agree-unreadable (some (cert_pem cert)) = refl
agree-unreadable (some unreadable) = refl

pub shut_out : {A : Type 0} {b : Bool} → b ≡ true → b ≡ false → A
shut_out e f = cc

own_pair : (key : ℕ) → (key == key) ≡ true
own_pair key = ground arith

pub IsCoherent-stable : IsStable IsCoherent
IsCoherent-stable = record { after = λ e s t h. h }

pub write_state-IsCoherent :
    (svc : Services) (cfg : Config) (state : State) → Keeps IsCoherent (write_state svc cfg state)
write_state-IsCoherent svc cfg state =
    write_state-Triple svc cfg state (λ _ s h. h) (λ _ s h. h) (λ s h. h)

-- A swap in three stages: the live key is away; the live certificate too; the new key has come, and
-- fits the certificate that is still to come. `key` and `cert` are the slots of the new pair.
module _ (key cert : Slot) where
  abbrev pub KeyAway : Machine → Type 0
  KeyAway s = IsCoherent s × (s.files live_key ≡ none)

  abbrev pub BothAway : Machine → Type 0
  BothAway s = IsCoherent s × (s.files live_key ≡ none) × (s.files live_cert ≡ none)

  abbrev HalfDone : Machine → Type 0
  HalfDone s =
      IsCoherent s
      × (s.files live_cert ≡ none)
      × (s.files key ≡ none)
      × (agree (s.files live_key) (s.files cert) ≡ true)

-- What is in the slot fits as what was there did.
moved_key :
    (old new cert : Option Content) → old ≡ new → agree old cert ≡ true → agree new cert ≡ true
moved_key old new cert e h = ap (λ key. agree key cert) (sym e) ∙ h

moved_cert :
    (key old new : Option Content) → old ≡ new → agree key old ≡ true → agree key new ≡ true
moved_cert key old new e h = ap (λ cert. agree key cert) (sym e) ∙ h

to_none : (key cert : Option Content) → cert ≡ none → agree key cert ≡ true
to_none key cert e = ap (λ c. agree key c) e ∙ agree-none key

pub live_key-away :
    (key cert : Slot)
    → Triple IsCoherent (replace live_key previous_key) (λ _. KeyAway key cert) IsCoherent
live_key-away key cert =
    replace-Triple live_key previous_key (λ s c e h. ((refl, h.1, h.2), refl)) (λ s h. h)

pub live_cert-away :
    (key cert : Slot)
    → Triple
        (KeyAway key cert)
        (replace live_cert previous_cert)
        (λ _. BothAway key cert)
        IsCoherent
live_cert-away key cert =
    replace-Triple live_cert previous_cert (λ s c e h. ((agree-none _, h.0.1, h.0.2), h.1, refl))
      (λ s h. h.0)

pub swap_pairs-IsCoherent : Keeps IsCoherent swap_pairs
unfolding swap_pairs
swap_pairs-IsCoherent = Triple-bind (live_key-away new_key new_cert) λ _.
    Triple-bind (live_cert-away new_key new_cert) λ _.
      Triple-bind
        (replace-Triple {Q = HalfDone new_key new_cert} new_key live_key
          (λ s c e h. ((to_none (some c) _ h.2, refl, h.0.2), h.2, refl, moved_key _ _ _ e h.0.1))
          (λ s h. h.0))
        λ _.
          replace-Triple new_cert live_cert
            (λ s c e h. (moved_cert _ _ _ e h.3, agree-none _, h.0.2)) (λ s h. h.0)

pub swap_standby-IsCoherent : Keeps IsCoherent swap_standby
unfolding swap_standby
swap_standby-IsCoherent = Triple-bind (live_key-away recovery_key recovery_cert) λ _.
    Triple-bind (live_cert-away recovery_key recovery_cert) λ _.
      Triple-bind
        (replace-Triple {Q = HalfDone recovery_key recovery_cert} recovery_key live_key
          (λ s c e h. ((to_none (some c) _ h.2, h.0.1, refl), h.2, refl, moved_key _ _ _ e h.0.2))
          (λ s h. h.0))
        λ _.
          replace-Triple recovery_cert live_cert
            (λ s c e h. (moved_cert _ _ _ e h.3, h.0.1, agree-none _)) (λ s h. h.0)

unlink_staged-IsCoherent : Keeps IsCoherent unlink_staged
unfolding unlink_staged
unlink_staged-IsCoherent =
    Keeps-bind (unlink-Triple {Q = IsCoherent} new_key (λ s h. (h.0, refl, h.2)))
      λ _. unlink-Triple new_cert (λ s h. (h.0, agree-none _, h.2))

discard_standby-IsCoherent : Keeps IsCoherent discard_standby
unfolding discard_standby
discard_standby-IsCoherent =
    Keeps-bind (unlink-Triple {Q = IsCoherent} recovery_key (λ s h. (h.0, h.1, refl)))
      λ _. unlink-Triple recovery_cert (λ s h. (h.0, h.1, agree-none _))

-- The pairs other than one that is being written, and its key.
abbrev pub LiveOnly : ℕ → Machine → Type 0
LiveOnly key s =
    (agree (s.files new_key) (s.files new_cert) ≡ true)
    × (agree (s.files recovery_key) (s.files recovery_cert) ≡ true)
    × (s.files live_key ≡ some (key_pem key))

abbrev NewOnly : ℕ → Machine → Type 0
NewOnly key s =
    (agree (s.files live_key) (s.files live_cert) ≡ true)
    × (agree (s.files recovery_key) (s.files recovery_cert) ≡ true)
    × (s.files new_key ≡ some (key_pem key))

abbrev StandbyOnly : ℕ → Machine → Type 0
StandbyOnly key s =
    (agree (s.files live_key) (s.files live_cert) ≡ true)
    × (agree (s.files new_key) (s.files new_cert) ≡ true)
    × (s.files recovery_key ≡ some (key_pem key))

-- The certificate that is written for the key in the other file.
pub fitting :
    (slot : Option Content) (key : ℕ) (cert : Certificate)
    → cert.public_key ≡ key
    → slot ≡ some (key_pem key)
    → agree slot (some (cert_pem cert)) ≡ true
fitting slot key cert own e = ap (λ o. agree o (some (cert_pem cert))) e ∙ ground (arith, own)

module _ (svc : Services) (cfg : Config) (opens : CertsOpen svc) where
  -- A generated certificate is for the generated key.
  pub make_certificate-own :
      Triple IsCoherent
        (make_certificate svc cfg)
        (λ pair s. IsCoherent s × (pair.cert.public_key ≡ pair.key))
        IsCoherent
  unfolding make_certificate
  make_certificate-own = record { run = λ s h. (h, refl) }

  stage_certificate-IsCoherent : Keeps IsCoherent (stage_certificate svc cfg)
  unfolding stage_certificate
  stage_certificate-IsCoherent = Triple-bind make_certificate-own λ fresh. Triple-fact λ own.
      Triple-bind
        (write_file-Triple {Q = NewOnly fresh.key} svc new_key (key_pem fresh.key)
          (λ s h. (h.0, h.2, refl)) (λ s e h. h) (λ s h. (h.0, refl, h.2)))
        λ _.
          Triple-bind
            (write_file-Triple {Q = IsCoherent} svc new_cert (cert_pem fresh.cert)
              (λ s h. (h.0, fitting _ fresh.key fresh.cert own h.2, h.1))
              (λ s e h. shut_out e (opens new_cert s.history refl))
              (λ s h. (h.0, agree-unreadable _, h.1)))
            λ _. search (talk_rules, IsCoherent-stable)

  generate_standby-IsCoherent : Keeps IsCoherent (generate_standby svc cfg)
  unfolding generate_standby
  generate_standby-IsCoherent = Triple-bind make_certificate-own λ fresh. Triple-fact λ own.
      Triple-bind
        (write_file-Triple {Q = StandbyOnly fresh.key} svc recovery_key (key_pem fresh.key)
          (λ s h. (h.0, h.1, refl)) (λ s e h. h) (λ s h. (h.0, h.1, refl)))
        λ _.
          Triple-bind
            (write_file-Triple {Q = IsCoherent} svc recovery_cert (cert_pem fresh.cert)
              (λ s h. (h.0, h.1, fitting _ fresh.key fresh.cert own h.2))
              (λ s e h. shut_out e (opens recovery_cert s.history refl))
              (λ s h. (h.0, h.1, agree-unreadable _)))
            λ _. search (talk_rules, IsCoherent-stable, write_state-IsCoherent) depth 12

  add_key-IsCoherent :
      (current fresh : Pair) (bearer : Text)
      → Keeps IsCoherent (add_key svc cfg current fresh bearer)
  unfolding add_key added_key
  add_key-IsCoherent current fresh bearer = Keeps-bind (proof-Keeps svc cfg current) λ assertion.
      Keeps-bind (graph-Keeps svc cfg _ bearer (λ a s h. h)) λ (status, result).
        search (talk_rules, IsCoherent-stable, unlink_staged-IsCoherent) depth 12

  pub turn_rules : TurnRules IsCoherent svc cfg
  turn_rules = record {
    talks = IsCoherent-stable;
    writes = write_state-IsCoherent svc cfg;
    adds = add_key-IsCoherent;
    stages = stage_certificate-IsCoherent;
    unstages = unlink_staged-IsCoherent;
    swaps = swap_pairs-IsCoherent;
  }

  pub pass_rules : PassRules IsCoherent svc cfg
  pass_rules = record {
    talks = IsCoherent-stable;
    writes = write_state-IsCoherent svc cfg;
    generates = generate_standby-IsCoherent;
    discards = discard_standby-IsCoherent;
    swaps = swap_standby-IsCoherent;
  }
