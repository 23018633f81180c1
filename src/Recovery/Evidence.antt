-- ===== src/Recovery/Evidence.antt =====
-- What a pass of the recovery has seen before it replaces the live certificate.
use postfix_m365_relay.Base.{
  ℕ, ◌+◌, ◌≤◌, ◌<◌, ◌≡◌, Bool, true, false, not, ◌&&◌, ◌⊎◌, Option, none, some, [], ◌∷◌, same,
  same_refl, arith, if◌then◌else◌, Text, pos, ltb_ℤ,
}
use postfix_m365_relay.Credential.Failure.{Fault, cert_fault, classify_token_failure}
use postfix_m365_relay.Credential.Owner.{is_empty}
use postfix_m365_relay.Machine.Types.{
  Outcome, outlook, Event, minted, proof_sent, History, live_key, live_cert, recovery_cert,
  cert_pem, Certificate, State, Machine, Services, Config,
}
use postfix_m365_relay.Machine.Exec.{emitted, ◌>>=◌, attempt, pure}
use postfix_m365_relay.Machine.Files.{Pair}
use postfix_m365_relay.Machine.Actions.{write_state, days_remaining, token}
use postfix_m365_relay.Machine.Triple.{Triple, Keeps}
use postfix_m365_relay.Machine.Keeps.{IsStable}
use postfix_m365_relay.Machine.Stores.{write_state-Triple}
use postfix_m365_relay.Recovery.Standby.{Mint, minted_ok, mint_failed, mint_of, try_mint}

-- How many events of a history are of a kind.
abbrev pub count : (Event → Bool) → History → ℕ
count kind [] = 0
count kind (e ∷ history) = (if kind e then 1 else 0) + count kind history

abbrev pub is_cert_fault : Fault → Bool
is_cert_fault cert_fault = true
is_cert_fault _ = false

-- A failure that says that Entra does not accept the certificate.
abbrev pub is_definitive : Mint → Bool
is_definitive minted_ok = false
is_definitive (mint_failed status body) = is_cert_fault (classify_token_failure status body)

abbrev pub is_minted : Mint → Bool
is_minted minted_ok = true
is_minted (mint_failed status body) = false

-- A refused token for the certificate of this thumbprint, for a definitive reason; a granted one; and a
-- proof message sent with it.
abbrev pub is_refusal : Text → Event → Bool
is_refusal digest (minted outlook used answer) = same used digest && is_definitive (mint_of answer)
is_refusal digest _ = false

abbrev pub is_grant : Text → Event → Bool
is_grant digest (minted outlook used answer) = same used digest && is_minted (mint_of answer)
is_grant digest _ = false

abbrev pub is_delivery : Text → Event → Bool
is_delivery digest (proof_sent bearer used true) = same used digest
is_delivery digest _ = false

abbrev pub has_recipient : Option Text → Bool
has_recipient none = false
has_recipient (some recipient) = not (is_empty recipient)

-- The local clock found the certificate expired.
pub record IsExpired (svc : Services) (cert : Certificate) : Type 0 where
  pub history : History
  pub no_days : ltb_ℤ (pos 0) (days_remaining cert (svc.now history)) ≡ false

-- Since the machine `s₀` the certificate that was live then has failed definitively, the standby of
-- then has been granted a token, and where there is a recipient a message has been sent with it.
module _ (svc : Services) (cfg : Config) (start : Machine) where
  -- More events of the kind than at the start.
  abbrev pub Since : (Event → Bool) → Machine → Type 0
  Since kind s = count kind start.history < count kind s.history

  abbrev pub Failed : Certificate → Machine → Type 0
  Failed old s = Since (is_refusal old.digest) s ⊎ IsExpired svc old

  pub record IsWarranted (s : Machine) : Type 0 where
    pub old : Certificate
    pub standby : Certificate
    pub old_live : start.files live_cert ≡ some (cert_pem old)
    pub standby_staged : start.files recovery_cert ≡ some (cert_pem standby)
    pub failed : Failed old s
    pub granted : Since (is_grant standby.digest) s
    pub delivered : has_recipient cfg.recipient ≡ true → Since (is_delivery standby.digest) s

  -- No event of the history at the start is lost.
  abbrev pub Grown : Machine → Type 0
  Grown s = (kind : Event → Bool) → count kind start.history ≤ count kind s.history

  abbrev pub Begun : Machine → Type 0
  Begun s = (s.files ≡ start.files) × Grown s

  -- The live pair is the one of the start.
  abbrev pub IsUntouched : Machine → Type 0
  IsUntouched s =
      (s.files live_key ≡ start.files live_key) × (s.files live_cert ≡ start.files live_cert)

  abbrev pub IsDefended : Machine → Type 0
  IsDefended s = IsUntouched s ⊎ IsWarranted s

  pub Begun-stable : IsStable Begun
  Begun-stable = record { after = λ e s t h. (h.0, λ kind. let g = h.1 kind in omega arith) }

  pub IsUntouched-stable : IsStable IsUntouched
  IsUntouched-stable = record { after = λ e s t h. h }

  pub later-Since :
      (kind : Event → Bool) (e : Event) (s : Machine) → Since kind s → Since kind (emitted e s)
  later-Since kind e s h = omega arith

  pub write-Begun : (state : State) → Keeps Begun (write_state svc cfg state)
  write-Begun state =
      write_state-Triple svc cfg state (λ _ s h. (h.0, λ kind. let g = h.1 kind in omega arith))
        (λ _ s h. h) (λ s h. (h.0, λ kind. let g = h.1 kind in omega arith))

  -- What a mint leaves in the history.
  abbrev pub MintSeen : Text → Mint → Machine → Type 0
  MintSeen digest m s =
      (is_minted m ≡ true → Since (is_grant digest) s)
      × (is_definitive m ≡ true → Since (is_refusal digest) s)

  pub try_mint-Seen :
      (pair : Pair)
      → Triple Begun (try_mint svc cfg pair) (λ m s. Begun s × MintSeen pair.cert.digest m s) Begun
  unfolding try_mint token attempt pure ◌>>=◌
  try_mint-Seen pair = record { run = λ s h. by_answer _ s h }
    where
      by_answer :
          (r : Outcome Text) (s : Machine)
          → Begun s
          → let s' = emitted (minted outlook pair.cert.digest r) s in
            Begun s' × MintSeen pair.cert.digest (mint_of r) s'
      by_answer r s h =
          let grants = h.1 (is_grant pair.cert.digest) in
          let refusals = h.1 (is_refusal pair.cert.digest) in
          let me = same_refl pair.cert.digest in
          ((h.0, λ kind. let g = h.1 kind in omega arith), (λ m. ground arith, λ m. ground arith))
