-- ===== src/Recovery/Guard.antt =====
-- `_adopt_standby`: the evidence for an adoption, through its steps.
pub mod Adoption
pub mod Pass
use postfix_m365_relay.Base.{◌≡◌, refl, Bool, inl, inr, Option, none, some, ◌∷◌, Text}
use postfix_m365_relay.Credential.Thumbprint.{Credential}
use postfix_m365_relay.Machine.Types.{
  Outcome, ok, raised, Event, Slot, live_key, live_cert, recovery_key, recovery_cert, previous_key,
  previous_cert, State, Machine, Services, Config,
}
use postfix_m365_relay.Machine.Exec.{emitted}
use postfix_m365_relay.Machine.Files.{Pair, file_at, replace}
use postfix_m365_relay.Machine.Actions.{write_state}
use postfix_m365_relay.Machine.Triple.{Keeps, Keeps-bind, Keeps-pure, Keeps-attempt, Keeps-lift}
use postfix_m365_relay.Machine.Keeps.{
  IsStable, log-Keeps, token-Keeps, get-Keeps, clock-Keeps, cert_action-Keeps, refresh-Keeps,
}
use postfix_m365_relay.Machine.Stores.{write_state-Triple, replace-Triple}
use postfix_m365_relay.Recovery.Standby.{
  swap_standby, scheduled, schedule_old, or_unscheduled, adopt_standby,
}
use postfix_m365_relay.Recovery.Evidence.{
  Since, IsWarranted, Begun, IsUntouched, IsDefended, later-Since,
}

module _ (svc : Services) (cfg : Config) (start : Machine) where
  abbrev pub B : Machine → Type 0
  B = Begun svc cfg start

  abbrev pub G : Machine → Type 0
  G = IsDefended svc cfg start

  abbrev pub W : Machine → Type 0
  W = IsWarranted svc cfg start

  pub IsUntouched-Begun : (s : Machine) → B s → IsUntouched svc cfg start s
  IsUntouched-Begun s h = (ap_at live_key, ap_at live_cert)
    where
      ap_at : (slot : Slot) → s.files slot ≡ start.files slot
      ap_at slot = cc

  pub guarded_of : (s : Machine) → B s → G s
  guarded_of s h = inl (IsUntouched-Begun s h)

  -- The evidence stays when the history grows, whatever becomes of the files.
  warranted_later : (e : Event) (s s' : Machine) → s'.history ≡ e ∷ s.history → W s → W s'
  warranted_later e s s' same_history h = record {
    old = h.old;
    standby = h.standby;
    old_live = h.old_live;
    standby_staged = h.standby_staged;
    failed = elim h.failed [ inl f ↦ inl (more _ f) | inr x ↦ inr x ];
    granted = more _ h.granted;
    delivered = λ r. more _ (h.delivered r);
  }
    where
      more : (kind : Event → Bool) → Since svc cfg start kind s → Since svc cfg start kind s'
      more kind f = rw same_history (later-Since svc cfg start kind e s f)

  pub W-stable : IsStable W
  W-stable = record { after = λ e s t h. warranted_later e s (emitted e s) refl h }

  write-W : (state : State) → Keeps W (write_state svc cfg state)
  write-W state =
      write_state-Triple svc cfg state (λ _ s h. warranted_later _ s _ refl h) (λ _ s h. h)
        (λ s h. warranted_later _ s _ refl h)

  replace-W : (from to : Slot) → Keeps W (replace from to)
  replace-W from to =
      replace-Triple from to
        (λ s c e h. warranted_later _ _ _ refl (warranted_later _ s (file_at to (some c) s) refl h))
        (λ s h. h)

  scheduled-W :
      (state : State) (old : Text) (key : Option Credential)
      → Keeps W (scheduled svc cfg state old key)
  unfolding scheduled
  scheduled-W state old none = Keeps-pure state
  scheduled-W state old (some key) =
      Keeps-bind (clock-Keeps svc cfg)
        λ now. Keeps-bind (log-Keeps W-stable svc cfg "recover" "ok") λ _. Keeps-pure _

  schedule_old-W :
      (standby : Pair) (old : Text) (state : State)
      → Keeps W (schedule_old svc cfg standby old state)
  unfolding schedule_old
  schedule_old-W standby old state = Keeps-bind (token-Keeps W-stable svc cfg _ standby) λ bearer.
      Keeps-bind (get-Keeps W-stable svc cfg bearer)
        λ (status, body). Keeps-bind (Keeps-lift _) λ key. scheduled-W state old key

  or_unscheduled-W :
      (state : State) (answer : Outcome State) → Keeps W (or_unscheduled svc cfg state answer)
  unfolding or_unscheduled
  or_unscheduled-W state (ok state') = Keeps-pure state'
  or_unscheduled-W state (raised e) =
      Keeps-bind (log-Keeps W-stable svc cfg "recover" "note") λ _. Keeps-pure state

  pub adopt_standby-W :
      (current standby : Pair) (state : State)
      → Keeps W (adopt_standby svc cfg current standby state)
  unfolding adopt_standby swap_standby
  adopt_standby-W current standby state = Keeps-bind swap λ _.
      Keeps-bind (log-Keeps W-stable svc cfg "recover" "ok") λ _.
        Keeps-bind (Keeps-attempt (schedule_old-W standby _ _)) λ answer.
          Keeps-bind (or_unscheduled-W _ answer) λ state'. Keeps-bind (write-W state') λ _.
            Keeps-bind (cert_action-Keeps W-stable svc cfg "clear")
              λ _. Keeps-bind (refresh-Keeps W-stable svc cfg) λ _. Keeps-pure 0
    where
      swap : Keeps W swap_standby
      swap = Keeps-bind (replace-W live_key previous_key) λ _.
          Keeps-bind (replace-W live_cert previous_cert)
            λ _. Keeps-bind (replace-W recovery_key live_key) λ _. replace-W recovery_cert live_cert
