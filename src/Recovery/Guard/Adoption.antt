-- ===== src/Recovery/Guard/Adoption.antt =====
-- What precedes the adoption of the standby: `_advance_pending_standby`.
use postfix_m365_relay.Base.{
  not, none, false, Option, arith, same_refl, true, ℕ, ◌≡◌, refl, Bool, inl, inr, some, Text,
}
use postfix_m365_relay.Machine.Types.{
  save_state, disk_failed, recovery_key, outlook, State, raised, ok, Outcome, proof_sent, cert_pem,
  Certificate, live_cert, recovery_cert, Machine, Services, Config,
}
use postfix_m365_relay.Machine.Exec.{pure, ◌>>=◌, Exec, emitted}
use postfix_m365_relay.Machine.Actions.{write_state, log, send_proof_message}
use postfix_m365_relay.Machine.Triple.{
  Triple-and, Keeps-gets, Keeps-attempt, Triple-fact, Triple-pure, Triple-before, Triple-attempt,
  Keeps-pure, Triple-if, Keeps-bind, Triple-bind, After, Triple-after, Triple, Keeps,
}
use postfix_m365_relay.Machine.Keeps.{
  cert_action-Keeps, upstream_port-Keeps, log-Keeps, token-Keeps, IsStable,
}
use postfix_m365_relay.Recovery.Evidence.{
  try_mint-Seen, MintSeen, has_recipient, is_delivery, is_grant, Failed, Begun-stable, Since,
  later-Since,
}
use postfix_m365_relay.Recovery.Guard.{
  write_state-Triple, adopt_standby-W, Pair, W, B, G, guarded_of,
}
use postfix_m365_relay.Recovery.Standby.{
  mint_of, standby_files, minted_ok, on_standby, advance_standby, try_mint, mint_failed, Mint,
  standby_proof, was_sent, prove_standby, on_standby_mint,
}
use postfix_m365_relay.Credential.Owner.{is_empty}
use postfix_m365_relay.Machine.Stores.{load-Triple}

module _ (svc : Services) (cfg : Config) (start : Machine) where
  abbrev pub Guarded : Exec ℕ → Type 0
  Guarded m = Triple (B svc cfg start) m (λ _. G svc cfg start) (G svc cfg start)

  pub st : IsStable (B svc cfg start)
  st = Begun-stable svc cfg start

  -- An action that leaves all files alone.
  pub quiet : {m : Exec ℕ} → Keeps (B svc cfg start) m → Guarded m
  quiet t = Triple-after (λ _. guarded_of svc cfg start) (guarded_of svc cfg start) t

  module _ (old : Certificate) (old_live : start.files live_cert ≡ some (cert_pem old)) where
    -- The live certificate has failed.
    abbrev pub F : Machine → Type 0
    F s = B svc cfg start s × Failed svc cfg start old s

    F-stable : IsStable F
    F-stable = record {
      after = λ e s t h. (
        st.after e s t h.0,
        elim h.1 [ inl f ↦ inl (later-Since svc cfg start _ e s f) | inr x ↦ inr x ],
      );
    }

    pub quiet_F : {m : Exec ℕ} → Keeps F m → Triple F m (λ _. G svc cfg start) (G svc cfg start)
    quiet_F t =
        Triple-after (λ _ s h. guarded_of svc cfg start s h.0)
          (λ s h. guarded_of svc cfg start s h.0) t

    module _ (standby : Certificate)
        (staged : start.files recovery_cert ≡ some (cert_pem standby)) where
      -- And the standby has been granted a token.
      abbrev R : Machine → Type 0
      R s = F s × Since svc cfg start (is_grant standby.digest) s

      R-stable : IsStable R
      R-stable = record {
        after = λ e s t h. (F-stable.after e s t h.0, later-Since svc cfg start _ e s h.1);
      }

      -- And, if the flag is set, a message has been delivered.
      abbrev D : Bool → Machine → Type 0
      D delivered s = R s × (delivered ≡ true → Since svc cfg start (is_delivery standby.digest) s)

      -- Has every proof been given that the settings ask for?
      abbrev Proved : Bool → Machine → Type 0
      Proved proven s =
          R s
          × (proven ≡ true
              → has_recipient cfg.recipient ≡ true
              → Since svc cfg start (is_delivery standby.digest) s)

      send-D :
          (bearer to : Text) → Triple R (send_proof_message svc cfg bearer to standby.digest) D R
      unfolding send_proof_message
      send-D bearer to = record { run = λ s h. delivery _ s h }
        where
          delivery :
              (b : Bool) (s : Machine) → R s → D b (emitted (proof_sent bearer standby.digest b) s)
          delivery b s h = (
            R-stable.after _ s refl h,
            λ d.
                let g = h.0.0.1 (is_delivery standby.digest) in
                let me = same_refl standby.digest in rw d (ground arith),
          )

      proof-D :
          (to : Text) (pair : Pair)
          → pair.cert ≡ standby
          → Triple R (prove_standby svc cfg pair to) D R
      unfolding prove_standby
      proof-D to pair is_standby = Triple-bind (token-Keeps R-stable svc cfg outlook pair) λ bearer.
          Triple-bind (upstream_port-Keeps svc cfg) λ port. rw is_standby (send-D bearer to)

      sent_fact : (r : Outcome Bool) (s : Machine) → After D R r s → D (was_sent svc cfg r) s
      sent_fact (ok b) s h = h
      sent_fact (raised e) s h = (h, λ d. cc)

      guarded_R : (s : Machine) → R s → G svc cfg start s
      guarded_R s h = guarded_of svc cfg start s h.0.0

      -- The note that there is nobody to send a message to.
      unsent :
          (to : Option Text)
          → has_recipient to ≡ false
          → Triple R
              (log svc cfg "recover" "note" >>= λ _. pure true)
              (λ proven s.
                R s
                × (proven ≡ true
                    → has_recipient to ≡ true
                    → Since svc cfg start (is_delivery standby.digest) s))
              (G svc cfg start)
      unsent to nobody =
          Triple-after (λ a s h. (h, λ p r. absurd (cc))) guarded_R
            (Keeps-bind (log-Keeps R-stable svc cfg "recover" "note") λ _. Keeps-pure true)

      standby_proof-Proved :
          (pair : Pair) (to : Option Text)
          → pair.cert ≡ standby
          → Triple R
              (standby_proof svc cfg pair to)
              (λ proven s.
                R s
                × (proven ≡ true
                    → has_recipient to ≡ true
                    → Since svc cfg start (is_delivery standby.digest) s))
              (G svc cfg start)
      unfolding standby_proof
      standby_proof-Proved pair none e = unsent none refl
      standby_proof-Proved pair (some to) e =
          Triple-if (is_empty to) (λ empty. unsent (some to) (ground arith))
            λ someone. Triple-bind (Triple-attempt (proof-D to pair e)) λ sent.
              Triple-before (sent_fact sent) (
                Triple-if (was_sent svc cfg sent)
                  (λ was. Triple-pure true (λ s h. (h.0, λ p r. h.1 was)))
                  λ not_sent.
                    Triple-before (λ s h. h.0)
                      (Triple-after (λ a s h. h) guarded_R
                        (Triple-bind (log-Keeps R-stable svc cfg "recover" "waiting")
                          λ _. Triple-pure false (λ s h. (h, λ p r. absurd (cc))))))

      warranted : (s : Machine) → Proved true s → W svc cfg start s
      warranted s h = record {
        old = old;
        standby = standby;
        old_live = old_live;
        standby_staged = staged;
        failed = h.0.0.1;
        granted = h.0.1;
        delivered = h.1 refl;
      }

      on_standby_mint-Guarded :
          (current pair : Pair) (state : State) (m : Mint)
          → pair.cert ≡ standby
          → Triple
              (λ s. F s × MintSeen svc cfg start standby.digest m s)
              (on_standby_mint svc cfg current pair state m)
              (λ _. G svc cfg start)
              (G svc cfg start)
      unfolding on_standby_mint
      on_standby_mint-Guarded current pair state minted_ok e =
          Triple-before (λ s h. (h.0, h.1.0 refl))
            (Triple-bind (standby_proof-Proved pair cfg.recipient e) λ proven.
              Triple-if proven
                (λ yes.
                  Triple-before (λ s h. warranted s (h.0, λ _. h.1 yes))
                    (Triple-after (λ a s h. inr h) (λ s h. inr h)
                      (adopt_standby-W svc cfg start current pair state)))
                λ no. Triple-pure 0 (λ s h. guarded_R s h.0))
      on_standby_mint-Guarded current pair state (mint_failed status body) e =
          Triple-before (λ s h. h.0)
            (quiet_F (
              Keeps-bind (log-Keeps F-stable svc cfg "recover" "waiting")
                λ _. Keeps-bind (cert_action-Keeps F-stable svc cfg "remind") λ _. Keeps-pure 0))

    try_mint-F :
        (pair : Pair)
        → Triple F
            (try_mint svc cfg pair)
            (λ m s. F s × MintSeen svc cfg start pair.cert.digest m s)
            (G svc cfg start)
    unfolding try_mint
    try_mint-F pair =
        Triple-before (λ s h. (h, h.0))
          (Triple-after (λ m s h. (h.0, h.1.1)) (λ s h. guarded_of svc cfg start s h.1)
            (Triple-and keeps (try_mint-Seen svc cfg start pair)))
      where
        keeps : Keeps F (try_mint svc cfg pair)
        keeps =
            Keeps-bind (Keeps-attempt (token-Keeps F-stable svc cfg outlook pair))
              λ answer. Keeps-pure (mint_of answer)

    abbrev Loaded : Pair → Machine → Type 0
    Loaded pair s = F s × (s.files recovery_cert ≡ some (cert_pem pair.cert))

    of_start :
        (pair : Pair) (s : Machine)
        → Loaded pair s
        → F s × (start.files recovery_cert ≡ some (cert_pem pair.cert))
    of_start pair s h = let same_files = h.0.0.0 in let read = h.1 in (h.0, cc)

    on_standby-Guarded :
        (current : Pair) (state : State) (r : Outcome Pair)
        → Triple
            (After Loaded F r)
            (on_standby svc cfg current state r)
            (λ _. G svc cfg start)
            (G svc cfg start)
    unfolding on_standby
    on_standby-Guarded current state (raised e) =
        quiet_F (Keeps-bind (log-Keeps F-stable svc cfg "recover" "note") λ _. Keeps-pure 0)
    on_standby-Guarded current state (ok pair) = Triple-before (of_start pair) (
        Triple-fact λ staged.
          Triple-bind (try_mint-F pair)
            λ m. on_standby_mint-Guarded pair.cert staged current pair state m refl)

    write-F : (state : State) → Keeps F (write_state svc cfg state)
    write-F state =
        write_state-Triple svc cfg state
          (λ _ s h. (
            (h.0.0, λ kind. let g = h.0.1 kind in omega arith),
            elim h.1 [ inl f ↦ inl (omega arith) | inr x ↦ inr x ],
          ))
          (λ _ s h. h) (λ s h. F-stable.after (disk_failed save_state) s refl h)

    pub advance_standby-Guarded :
        (current : Pair) (state : State)
        → Triple F (advance_standby svc cfg current state) (λ _. G svc cfg start) (G svc cfg start)
    unfolding advance_standby standby_files
    advance_standby-Guarded current state =
        Triple-bind
          (Triple-after {Q' = λ _. F} (λ a s h. h) (λ s h. guarded_of svc cfg start s h.0)
            (Keeps-gets _))
          λ there.
            Triple-if (not there)
              (λ missing. quiet_F (
                Keeps-bind (write-F _)
                  λ _. Keeps-bind (log-Keeps F-stable svc cfg "recover" "note") λ _. Keeps-pure 0))
              λ found.
                Triple-bind (Triple-attempt (load-Triple recovery_key recovery_cert))
                  λ standby. on_standby-Guarded current state standby
