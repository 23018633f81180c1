-- ===== src/Rotation/Proven/Whole.antt =====
-- The order of the proof message and the swap, through a whole run.
use postfix_m365_relay.Base.{
  ℕ, ◌≡◌, refl, Bool, true, false, not, ◌==◌, Option, none, some, same_refl, String, Text, arith,
}
use postfix_m365_relay.Machine.Types.{
  proof_sent, new_key, new_cert, key_pem, cert_pem, Certificate, State, Machine, Services, Config,
  Body, graph_default,
}
use postfix_m365_relay.Machine.Exec.{emitted}
use postfix_m365_relay.Machine.Files.{Pair}
use postfix_m365_relay.Machine.Actions.{send_proof_message, key_id_of}
use postfix_m365_relay.Machine.Triple.{
  Triple, Triple-bind, Triple-before, Triple-after, Triple-if, Triple-pure, Keeps, Triple-final,
  Keeps-bind, Keeps-lift,
}
use postfix_m365_relay.Machine.Keeps.{
  log-Keeps, token-Keeps, proof-Keeps, graph-Keeps, make_certificate-Keeps, upstream_port-Keeps,
  clock-Keeps, refresh-Keeps,
}
use postfix_m365_relay.Machine.Stores.{unlink-Triple, write_file-Triple}
use postfix_m365_relay.Rotation.Frame.{await_replication-Keeps}
use postfix_m365_relay.Rotation.Frame.Run.{run_rotation-Keeps}
use postfix_m365_relay.Rotation.Frame.Writes.{schedule_removal-Keeps, announce-Keeps, abandon-Keeps}
use postfix_m365_relay.Rotation.Steps.{
  unlink_staged, stage_certificate, added_key, add_key, abandon, adopt, after_proof, after_token,
  after_wait, carry_through,
}
use postfix_m365_relay.Rotation.Run.{rotate_to, run_rotation}
use postfix_m365_relay.Rotation.Proven.Grant.{
  Granted, GrantedIf, granting, forgetting, prove_token-Granted,
}
use postfix_m365_relay.Rotation.Proven.{
  IsGuarded, Staged, Ready, IsGuarded-stable, Staged-stable, swap_pairs-IsGuarded, write-IsGuarded,
  write-Staged, Ready-stable, guarded,
}

unlink_staged-IsGuarded : Keeps IsGuarded unlink_staged
unfolding unlink_staged
unlink_staged-IsGuarded =
    Keeps-bind (unlink-Triple {Q = IsGuarded} new_key (λ s h. h))
      λ _. unlink-Triple new_cert (λ s h. h)

-- What addKey leaves: the staged pair, or on a refusal only the order of the history.
abbrev StagedIf : Certificate → Option Text → Machine → Type 0
StagedIf cert none s = IsGuarded s
StagedIf cert (some key_id) s = Staged cert s

module _ (svc : Services) (cfg : Config) where
  stage_certificate-Staged :
      Triple IsGuarded (stage_certificate svc cfg) (λ fresh. Staged fresh.cert) IsGuarded
  unfolding stage_certificate
  stage_certificate-Staged = Triple-bind (make_certificate-Keeps IsGuarded-stable svc cfg) λ fresh.
      Triple-bind
        (write_file-Triple {Q = IsGuarded} svc new_key (key_pem fresh.key) (λ s h. h) (λ s e h. h)
          (λ s h. h))
        λ _.
          Triple-bind
            (write_file-Triple {Q = Staged fresh.cert} svc new_cert (cert_pem fresh.cert)
              (λ s h. (h, refl)) (λ s e h. h) (λ s h. h))
            λ _.
              Triple-bind
                (forgetting fresh.cert
                  (log-Keeps (Staged-stable fresh.cert) svc cfg "stage-certificate" "ok"))
                λ _. Triple-pure fresh (λ s h. h)

  added_key-Staged :
      (cert : Certificate) (status : ℕ) (result : Body)
      → Triple (Staged cert) (added_key svc cfg status result) (StagedIf cert) IsGuarded
  unfolding added_key
  added_key-Staged cert status result =
      Triple-if (not (status == 200))
        (λ _.
          Triple-before (λ s h. h.0)
            (Triple-bind (log-Keeps IsGuarded-stable svc cfg "add-key" "FAILED")
              λ _. Triple-bind unlink_staged-IsGuarded λ _. Triple-pure none (λ s h. h)))
        (λ _. Triple-bind (forgetting cert (Keeps-lift (key_id_of result))) λ key_id.
          Triple-bind (forgetting cert (log-Keeps (Staged-stable cert) svc cfg "add-key" "ok"))
            λ _. Triple-pure (some key_id) (λ s h. h))

  add_key-Staged :
      (current fresh : Pair) (bearer : Text)
      → Triple
          (Staged fresh.cert)
          (add_key svc cfg current fresh bearer)
          (StagedIf fresh.cert)
          IsGuarded
  unfolding add_key
  add_key-Staged current fresh bearer =
      Triple-bind (forgetting fresh.cert (proof-Keeps svc cfg current)) λ assertion.
        Triple-bind (forgetting fresh.cert (graph-Keeps svc cfg _ bearer (λ a s h. h)))
          λ (status, result). added_key-Staged fresh.cert status result

  abandon-IsGuarded :
      (current : Pair) (state : State) (added : Text) (step : String)
      → Keeps IsGuarded (abandon svc cfg current state added step)
  abandon-IsGuarded current state added step =
      abandon-Keeps IsGuarded-stable svc cfg (write-IsGuarded svc cfg) current state added step
        unlink_staged-IsGuarded

  -- The swap, of a certificate that has been proven.
  adopt-IsGuarded :
      (current : Pair) (cert : Certificate) (state : State) (added bearer : Text)
      → Triple (Ready cert) (adopt svc cfg current state added bearer) (λ _. IsGuarded) IsGuarded
  unfolding adopt
  adopt-IsGuarded current cert state added bearer = Triple-bind (swap_pairs-IsGuarded cert) λ _.
      Triple-bind (log-Keeps IsGuarded-stable svc cfg "swap" "ok") λ _.
        Triple-bind
          (schedule_removal-Keeps IsGuarded-stable svc cfg (write-IsGuarded svc cfg) current _ added
            bearer)
          λ _.
            Triple-bind (refresh-Keeps IsGuarded-stable svc cfg) λ refreshed.
              announce-Keeps IsGuarded-stable svc cfg (write-IsGuarded svc cfg) refreshed

  -- After the proof message: ready if it was sent, and staged in any case.
  abbrev ProvenIf : Certificate → Bool → Machine → Type 0
  ProvenIf cert true s = Ready cert s
  ProvenIf cert false s = IsGuarded s

  after_proof-IsGuarded :
      (current : Pair) (cert : Certificate) (state : State) (added bearer : Text) (sent : Bool)
      → Triple
          (ProvenIf cert sent)
          (after_proof svc cfg current state added bearer sent)
          (λ _. IsGuarded)
          IsGuarded
  unfolding after_proof
  after_proof-IsGuarded current cert state added bearer false =
      abandon-IsGuarded current state added "prove-send"
  after_proof-IsGuarded current cert state added bearer true =
      Triple-bind
        (Triple-after (λ a s h. h) (λ s h. h.0)
          (log-Keeps (Ready-stable cert) svc cfg "prove-send" "ok"))
        λ _. adopt-IsGuarded current cert state added bearer

  send_proof-ProvenIf :
      (cert : Certificate) (bearer recipient : Text)
      → Triple
          (Granted cert bearer)
          (send_proof_message svc cfg bearer recipient cert.digest)
          (ProvenIf cert)
          IsGuarded
  unfolding send_proof_message
  send_proof-ProvenIf cert bearer recipient = record {
    run = λ s h. by_answer (svc.submit bearer recipient cert.digest s.history) s h;
  }
    where
      by_answer :
          (sent : Bool) (s : Machine)
          → Granted cert bearer s
          → ProvenIf cert sent (emitted (proof_sent bearer cert.digest sent) s)
      by_answer true s h = (h.0.0, h.0.1, ground (arith, same_refl cert.digest, h.1))
      by_answer false s h = h.0.0

  after_token-IsGuarded :
      (current fresh : Pair) (state : State) (recipient added bearer : Text) (t : Option Text)
      → Triple
          (GrantedIf fresh.cert t)
          (after_token svc cfg current fresh state recipient added bearer t)
          (λ _. IsGuarded)
          IsGuarded
  unfolding after_token
  after_token-IsGuarded current fresh state recipient added bearer none =
      Triple-before (λ s h. h.0) (abandon-IsGuarded current state added "prove-token")
  after_token-IsGuarded current fresh state recipient added bearer (some t) =
      Triple-bind (granting fresh.cert t (upstream_port-Keeps svc cfg)) λ port.
        Triple-bind (send_proof-ProvenIf fresh.cert t recipient)
          λ sent. after_proof-IsGuarded current fresh.cert state added bearer sent

  after_wait-IsGuarded :
      (current fresh : Pair) (state : State) (recipient added bearer : Text) (visible : Bool)
      → Triple
          (Staged fresh.cert)
          (after_wait svc cfg current fresh state recipient added bearer visible)
          (λ _. IsGuarded)
          IsGuarded
  unfolding after_wait
  after_wait-IsGuarded current fresh state recipient added bearer false =
      Triple-before (λ s h. h.0) (abandon-IsGuarded current state added "await-replication")
  after_wait-IsGuarded current fresh state recipient added bearer true =
      Triple-bind (prove_token-Granted svc cfg fresh true 20)
        λ t. after_token-IsGuarded current fresh state recipient added bearer t

  carry_through-IsGuarded :
      (current fresh : Pair) (state : State) (recipient bearer : Text) (added : Option Text)
      → Triple
          (StagedIf fresh.cert added)
          (carry_through svc cfg current fresh state recipient bearer added)
          (λ _. IsGuarded)
          IsGuarded
  unfolding carry_through
  carry_through-IsGuarded current fresh state recipient bearer none = Triple-pure 1 (λ s h. h)
  carry_through-IsGuarded current fresh state recipient bearer (some added) =
      Triple-bind (forgetting fresh.cert (clock-Keeps svc cfg)) λ now.
        Triple-bind (forgetting fresh.cert (write-Staged svc cfg fresh.cert _)) λ _.
          Triple-bind
            (forgetting fresh.cert
              (await_replication-Keeps (Staged-stable fresh.cert) svc cfg added bearer 24))
            λ visible. after_wait-IsGuarded current fresh _ recipient added bearer visible

  rotate_to-IsGuarded :
      (current : Pair) (state : State) (recipient : Text)
      → Keeps IsGuarded (rotate_to svc cfg current state recipient)
  unfolding rotate_to
  rotate_to-IsGuarded current state recipient = Triple-bind stage_certificate-Staged λ fresh.
      Triple-bind
        (forgetting fresh.cert
          (token-Keeps (Staged-stable fresh.cert) svc cfg graph_default current))
        λ bearer.
          Triple-bind (add_key-Staged current fresh bearer)
            λ added. carry_through-IsGuarded current fresh state recipient bearer added

  run_rotation-IsGuarded : Keeps IsGuarded (run_rotation svc cfg)
  run_rotation-IsGuarded = run_rotation-Keeps svc cfg (record {
    talks = IsGuarded-stable;
    writes = write-IsGuarded svc cfg;
    rotates = rotate_to-IsGuarded;
  })

-- If every certificate that the history shows to have been made live had proven itself before, by a token
-- that was granted to it and a message that was accepted under that very token, then so it is after a run,
-- whatever the services answered and also where the run ended by an exception.
pub run_rotation-proven :
    (svc : Services) (cfg : Config) (s : Machine)
    → guarded s.history ≡ true
    → guarded (run_rotation svc cfg s).1.history ≡ true
run_rotation-proven svc cfg s h = Triple-final (run_rotation-IsGuarded svc cfg) s h
