-- ===== src/Rotation/Accounted.antt =====
-- Where the id of an added key is to be found: the state file, a read after its removal, or the live
-- certificate.
pub mod Whole
use postfix_m365_relay.Base.{
  ℕ, ◌≡◌, refl, sym, ◌∙◌, Bool, true, false, not, ◌&&◌, ◌||◌, Option, none, some, List, [], ◌∷◌,
  same, same_refl, arith, String, Text, if◌then◌else◌,
}
use postfix_m365_relay.Machine.Types.{
  Outcome, ok, raised, Event, stored, filed, History, Slot, live_key, live_cert, new_key, new_cert,
  previous_key, previous_cert, Content, key_pem, cert_pem, Certificate, Files, PendingAddition,
  State, Machine, Services, Config,
}
use postfix_m365_relay.Machine.Exec.{Exec, ◌>>=◌, emitted}
use postfix_m365_relay.Machine.Files.{Pair, file_at, replace, unlink}
use postfix_m365_relay.Machine.Actions.{clock, write_state, stored_in}
use postfix_m365_relay.Machine.Triple.{
  Triple, Triple-bind, Triple-pure, Triple-before, Triple-after, Triple-and, After, Keeps,
  Keeps-bind, Keeps-pure,
}
use postfix_m365_relay.Machine.Keeps.{
  IsStable, is_talk, talk_rules, log-Keeps, upstream_port-Keeps, send_proof_message-Keeps,
  refresh-Keeps,
}
use postfix_m365_relay.Machine.Stores.{write_state-Triple, unlink-Triple, replace-Triple}
use postfix_m365_relay.Rotation.Frame.{remove_key-Keeps, await_replication-Keeps, prove_token-Keeps}
use postfix_m365_relay.Rotation.Frame.Writes.{schedule_removal-Keeps, announce-Keeps}
use postfix_m365_relay.Rotation.Confirmed.{confirmed, ConfirmedIf, Anything, remove_key-ConfirmedIf}
use postfix_m365_relay.Rotation.Steps.{
  swap_pairs, unlink_staged, abandoned, abandon, adopt, after_proof, after_token, after_wait,
  carry_through,
}

abbrev pub names_key : Text → Option PendingAddition → Bool
names_key key_id none = false
names_key key_id (some pending) = same pending.key_id key_id

-- The state file names the key as added and not yet settled.
abbrev pub recorded : Text → Option State → Bool
recorded key_id none = false
recorded key_id (some state) = names_key key_id state.pending_addition

-- At some time a read confirmed that the key is gone.
abbrev pub was_confirmed : Text → History → Bool
was_confirmed key_id [] = false
was_confirmed key_id (e ∷ history) = confirmed key_id (e ∷ history) || was_confirmed key_id history

abbrev pub holds_cert : Text → Option Content → Bool
holds_cert digest (some (cert_pem cert)) = same cert.digest digest
holds_cert digest _ = false

abbrev pub accounted : Text → Text → Machine → Bool
accounted key_id digest s =
    recorded key_id s.saved
    || was_confirmed key_id s.history
    || holds_cert digest (s.files live_cert)

module _ (key_id : Text) (cert : Certificate) where
  abbrev pub IsAccounted : Machine → Type 0
  IsAccounted s = accounted key_id cert.digest s ≡ true

  -- Recorded, with the new certificate staged.
  abbrev pub Pending : Machine → Type 0
  Pending s = (recorded key_id s.saved ≡ true) × (s.files new_cert ≡ some (cert_pem cert))

  abbrev pub Gone : Machine → Type 0
  Gone s = was_confirmed key_id s.history ≡ true

  abbrev pub Adopted : Machine → Type 0
  Adopted s = holds_cert cert.digest (s.files live_cert) ≡ true

  pub IsAccounted-stable : IsStable IsAccounted
  IsAccounted-stable = record { after = λ e s t h. ground arith }

  pub Pending-stable : IsStable Pending
  Pending-stable = record { after = λ e s t h. h }

  pub Gone-stable : IsStable Gone
  Gone-stable = record { after = λ e s t h. ground arith }

  pub Adopted-stable : IsStable Adopted
  Adopted-stable = record { after = λ e s t h. h }

  pub of_Pending : (s : Machine) → Pending s → IsAccounted s
  of_Pending s h = ground arith

  pub of_Gone : (s : Machine) → Gone s → IsAccounted s
  of_Gone s h = ground arith

  pub of_Adopted : (s : Machine) → Adopted s → IsAccounted s
  of_Adopted s h = ground arith

  pub was_of_confirmed : (h : History) → confirmed key_id h ≡ true → was_confirmed key_id h ≡ true
  was_of_confirmed [] c = cc
  was_of_confirmed (e ∷ h) c = ground arith

  filed_adopted :
      (c : Content) → some c ≡ some (cert_pem cert) → holds_cert cert.digest (some c) ≡ true
  filed_adopted c e = let shape : c ≡ cert_pem cert = cc in rw shape (same_refl cert.digest)

  swap_pairs-Adopted : Triple Pending swap_pairs (λ _. Adopted) IsAccounted
  unfolding swap_pairs
  swap_pairs-Adopted =
      Triple-bind (replace-Triple {Q = Pending} live_key previous_key (λ s c e h. h) of_Pending)
        λ _.
          Triple-bind
            (replace-Triple {Q = Pending} live_cert previous_cert (λ s c e h. h) of_Pending)
            λ _.
              Triple-bind (replace-Triple {Q = Pending} new_key live_key (λ s c e h. h) of_Pending)
                λ _.
                  replace-Triple new_cert live_cert (λ s c e h. filed_adopted c (sym e ∙ h.1))
                    of_Pending

  pub unlink_staged-IsAccounted : Keeps IsAccounted unlink_staged
  unfolding unlink_staged
  unlink_staged-IsAccounted =
      Keeps-bind (unlink-Triple {Q = IsAccounted} new_key (λ s h. ground arith))
        λ _. unlink-Triple new_cert (λ s h. ground arith)

  -- An action that keeps a sufficient property.
  pub pending :
      {A : Type 0} {m : Exec A} → Keeps Pending m → Triple Pending m (λ _. Pending) IsAccounted
  pending t = Triple-after (λ a s h. h) of_Pending t

  pub adopted :
      {A : Type 0} {m : Exec A} → Keeps Adopted m → Triple Adopted m (λ _. Adopted) IsAccounted
  adopted t = Triple-after (λ a s h. h) of_Adopted t

  module _ (svc : Services) (cfg : Config) where
    write-Adopted : (state : State) → Keeps Adopted (write_state svc cfg state)
    write-Adopted state = write_state-Triple svc cfg state (λ _ s h. h) (λ _ s h. h) (λ s h. h)

    pub adopt-IsAccounted :
        (current : Pair) (state : State) (bearer : Text)
        → Triple Pending (adopt svc cfg current state key_id bearer) (λ _. IsAccounted) IsAccounted
    unfolding adopt
    adopt-IsAccounted current state bearer = Triple-bind swap_pairs-Adopted λ _.
        Triple-bind (adopted (log-Keeps Adopted-stable svc cfg "swap" "ok")) λ _.
          Triple-bind
            (adopted
              (schedule_removal-Keeps Adopted-stable svc cfg write-Adopted current _ key_id bearer))
            λ _. Triple-bind (adopted (refresh-Keeps Adopted-stable svc cfg)) λ done.
              Triple-after (λ a s h. of_Adopted s h) of_Adopted
                (announce-Keeps Adopted-stable svc cfg write-Adopted done)
