-- ===== src/Rotation/Accounted/Whole.antt =====
-- `carry_through` on every path: abandoned, adopted, or cut off by an exception.
use postfix_m365_relay.Base.{
  ap, ◌||◌, ℕ, refl, ◌≡◌, ◌&&◌, ◌||◌, ◌∷◌, ap, arith, Bool, true, false, Option, none, some,
  same_refl, String, Text,
}
use postfix_m365_relay.Machine.Types.{
  created, disk_failed, append_log, save_state, DiskCall, History, Outcome, ok, raised, new_cert,
  cert_pem, Certificate, State, Machine, Services, Config,
}
use postfix_m365_relay.Machine.Files.{Pair}
use postfix_m365_relay.Machine.Actions.{key_id_of, clock, seconds, write_state}
use postfix_m365_relay.Machine.Triple.{
  Triple-pure, Triple-fact, After, Triple, Triple-bind, Triple-before, Triple-after, Triple-and,
  Keeps, Keeps-bind, Keeps-pure,
}
use postfix_m365_relay.Machine.Keeps.{log-Keeps, upstream_port-Keeps, send_proof_message-Keeps}
use postfix_m365_relay.Machine.Stores.{log-Triple, write_state-Triple}
use postfix_m365_relay.Rotation.Frame.{remove_key-Keeps, await_replication-Keeps, prove_token-Keeps}
use postfix_m365_relay.Rotation.Confirmed.{ConfirmedIf, remove_key-ConfirmedIf}
use postfix_m365_relay.Rotation.Removal.{remove_key}
use postfix_m365_relay.Rotation.Steps.{
  added_key, with_addition, abandoned, abandon, after_proof, after_token, after_wait, carry_through,
}
use postfix_m365_relay.Rotation.Accounted.{
  ◌>>=◌, emitted, accounted, IsAccounted, Pending, Gone, IsAccounted-stable, Pending-stable,
  Gone-stable, of_Pending, of_Gone, was_of_confirmed, unlink_staged-IsAccounted, pending,
  adopt-IsAccounted,
}
use postfix_m365_relay.Machine.Exec.{lift}

-- Was a failed write of the log or the state file the last that happened?
abbrev pub ends_cut : History → Bool
ends_cut (disk_failed call ∷ history) = true
ends_cut _ = false

abbrev pub was_raised : Outcome ℕ → Bool
was_raised (ok status) = false
was_raised (raised e) = true

module _ (key_id : Text) (cert : Certificate) (svc : Services) (cfg : Config) where
  -- What a removal leaves: confirmed, or still pending.
  abbrev Settled : Bool → Machine → Type 0
  Settled removed s = ConfirmedIf key_id removed s × Pending key_id cert s

  write-Gone : (state : State) → Keeps (Gone key_id cert) (write_state svc cfg state)
  write-Gone state =
      write_state-Triple svc cfg state (λ _ s h. ground arith) (λ _ s h. h) (λ s h. ground arith)

  abandoned-IsAccounted :
      (state : State) (removed : Bool)
      → Triple
          (Settled removed)
          (abandoned svc cfg state removed)
          (λ _. IsAccounted key_id cert)
          (IsAccounted key_id cert)
  unfolding abandoned
  abandoned-IsAccounted state true =
      Triple-before (λ s h. was_of_confirmed key_id cert s.history h.0)
        (Triple-after (λ a s h. of_Gone key_id cert s h) (of_Gone key_id cert)
          (Keeps-bind (log-Keeps (Gone-stable key_id cert) svc cfg "abandon" "ok")
            λ _. write-Gone _))
  abandoned-IsAccounted state false =
      Triple-before (λ s h. h.1)
        (Triple-after (λ a s h. of_Pending key_id cert s h) (of_Pending key_id cert)
          (log-Keeps (Pending-stable key_id cert) svc cfg "abandon" "FAILED"))

  abandon-IsAccounted :
      (current : Pair) (state : State) (step : String)
      → Triple
          (Pending key_id cert)
          (abandon svc cfg current state key_id step)
          (λ _. IsAccounted key_id cert)
          (IsAccounted key_id cert)
  unfolding abandon
  abandon-IsAccounted current state step =
      Triple-bind
        (pending key_id cert (log-Keeps (Pending-stable key_id cert) svc cfg step "FAILED"))
        λ _. Triple-bind removed λ r. Triple-bind (abandoned-IsAccounted state r) λ _.
          Keeps-bind (unlink_staged-IsAccounted key_id cert) λ _.
            Keeps-bind (log-Keeps (IsAccounted-stable key_id cert) svc cfg step "note")
              λ _. Keeps-pure 1
    where
      removed :
          Triple
            (Pending key_id cert)
            (remove_key svc cfg current key_id)
            Settled
            (IsAccounted key_id cert)
      removed =
          Triple-before (λ s h. (tt, h))
            (Triple-after (λ a s h. h) (λ s h. of_Pending key_id cert s h.1)
              (Triple-and (remove_key-ConfirmedIf svc cfg current key_id)
                (remove_key-Keeps (Pending-stable key_id cert) svc cfg current key_id)))

  after_proof-IsAccounted :
      (current : Pair) (state : State) (bearer : Text) (sent : Bool)
      → Triple
          (Pending key_id cert)
          (after_proof svc cfg current state key_id bearer sent)
          (λ _. IsAccounted key_id cert)
          (IsAccounted key_id cert)
  unfolding after_proof
  after_proof-IsAccounted current state bearer false =
      abandon-IsAccounted current state "prove-send"
  after_proof-IsAccounted current state bearer true =
      Triple-bind
        (pending key_id cert (log-Keeps (Pending-stable key_id cert) svc cfg "prove-send" "ok"))
        λ _. adopt-IsAccounted key_id cert svc cfg current state bearer

  module _ (current fresh : Pair) (state : State) (recipient bearer : Text) where
    after_token-IsAccounted :
        (t : Option Text)
        → Triple
            (Pending key_id cert)
            (after_token svc cfg current fresh state recipient key_id bearer t)
            (λ _. IsAccounted key_id cert)
            (IsAccounted key_id cert)
    unfolding after_token
    after_token-IsAccounted none = abandon-IsAccounted current state "prove-token"
    after_token-IsAccounted (some t) =
        Triple-bind (pending key_id cert (upstream_port-Keeps svc cfg)) λ port.
          Triple-bind
            (pending key_id cert (
              send_proof_message-Keeps (Pending-stable key_id cert) svc cfg t recipient
                fresh.cert.digest))
            λ sent. after_proof-IsAccounted current state bearer sent

    after_wait-IsAccounted :
        (visible : Bool)
        → Triple
            (Pending key_id cert)
            (after_wait svc cfg current fresh state recipient key_id bearer visible)
            (λ _. IsAccounted key_id cert)
            (IsAccounted key_id cert)
    unfolding after_wait
    after_wait-IsAccounted false = abandon-IsAccounted current state "await-replication"
    after_wait-IsAccounted true =
        Triple-bind
          (pending key_id cert
            (prove_token-Keeps (Pending-stable key_id cert) svc cfg fresh true 20))
          λ t. after_token-IsAccounted t

  abbrev IsStaged : Machine → Type 0
  IsStaged s = s.files new_cert ≡ some (cert_pem cert)

  -- Accounted for, or the last thing that happened is a failed write of the log or the state file.
  abbrev IsCut : Machine → Type 0
  IsCut s = (accounted key_id cert.digest s || ends_cut s.history) ≡ true

  accounted-IsCut : (s : Machine) → IsAccounted key_id cert s → IsCut s
  accounted-IsCut s h = ground arith

  disk_failed-IsCut : (call : DiskCall) (s : Machine) → IsCut (emitted (disk_failed call) s)
  disk_failed-IsCut call s = ground arith

  carry_through-IsAccounted :
      (current fresh : Pair) (state : State) (recipient bearer : Text)
      → cfg.dry_run ≡ false
      → Triple IsStaged
          (carry_through svc cfg current fresh state recipient bearer (some key_id))
          (λ _. IsAccounted key_id cert)
          IsCut
  unfolding carry_through
  carry_through-IsAccounted current fresh state recipient bearer wet =
      Triple-bind {R = λ _. IsStaged} (unfold clock in record { run = λ s h. h }) λ now.
        Triple-bind
          (write_state-Triple svc cfg (with_addition key_id fresh.cert.digest (seconds now) state)
            (λ _ s h. (same_refl key_id, h)) (λ dry s h. absurd (cc))
            (λ s h. disk_failed-IsCut save_state s))
          λ _.
            Triple-after (λ a s h. h) accounted-IsCut
              (Triple-bind
                (pending key_id cert
                  (await_replication-Keeps (Pending-stable key_id cert) svc cfg key_id bearer 24))
                λ visible. after_wait-IsAccounted current fresh _ recipient bearer visible)

  added_key-IsStaged :
      Triple IsStaged
        (added_key svc cfg 200 (created key_id))
        (λ a s. IsStaged s × (a ≡ some key_id))
        IsCut
  unfolding added_key key_id_of
  added_key-IsStaged =
      Triple-bind {R = λ k s. IsStaged s × (k ≡ key_id)}
        (unfold lift in record { run = λ s h. (h, refl) })
        λ k.
          Triple-bind {R = λ _ s. IsStaged s × (k ≡ key_id)}
            (log-Triple svc cfg "add-key" "ok" (λ s h. h) (λ s h. h)
              (λ s h. disk_failed-IsCut append_log s))
            λ _. Triple-pure (some k) (λ s h. (h.0, ap some h.1))

  on_answer-IsAccounted :
      (current fresh : Pair) (state : State) (recipient bearer : Text)
      → cfg.dry_run ≡ false
      → Triple IsStaged
          (added_key svc cfg 200 (created key_id)
            >>= carry_through svc cfg current fresh state recipient bearer)
          (λ _. IsAccounted key_id cert)
          IsCut
  on_answer-IsAccounted current fresh state recipient bearer wet =
      Triple-bind added_key-IsStaged λ a.
        Triple-fact λ e. rw e (carry_through-IsAccounted current fresh state recipient bearer wet)

settled_or_cut :
    (key_id digest : Text) (r : Outcome ℕ) (s : Machine)
    → After
        (λ _ t. accounted key_id digest t ≡ true)
        (λ t. (accounted key_id digest t || ends_cut t.history) ≡ true)
        r
        s
    → (accounted key_id digest s || (was_raised r && ends_cut s.history)) ≡ true
settled_or_cut key_id digest (ok n) s h = ground arith
settled_or_cut key_id digest (raised e) s h = h

-- From addKey's answer on, which gives the new key's id, however the run goes on and also where an
-- exception ends it: the id is in the state file as unsettled, or a read after its removal did not list
-- it, or the certificate that was added is the live one, or the run was ended by a failed write of the log
-- or the state file. The new certificate was staged, and the run is no dry run.
pub carry_through-accounted :
    (svc : Services) (cfg : Config) (current fresh : Pair) (state : State)
    (recipient bearer key_id : Text) (s : Machine)
    → cfg.dry_run ≡ false
    → s.files new_cert ≡ some (cert_pem fresh.cert)
    → let r =
        (added_key svc cfg 200 (created key_id)
            >>= carry_through svc cfg current fresh state recipient bearer)
          s in
      (accounted key_id fresh.cert.digest r.1 || (was_raised r.0 && ends_cut r.1.history)) ≡ true
carry_through-accounted svc cfg current fresh state recipient bearer key_id s wet staged =
    settled_or_cut key_id fresh.cert.digest _ _ (
      (on_answer-IsAccounted key_id fresh.cert svc cfg current fresh state recipient bearer wet).run
        s staged)
