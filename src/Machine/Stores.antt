-- ===== src/Machine/Stores.antt =====
-- Rules for the actions that write: the state file and the credential files.
use postfix_m365_relay.Base.{
  String, ◌≡◌, refl, ◌∙◌, Bool, true, false, Option, none, some, if◌then◌else◌,
}
use postfix_m365_relay.Machine.Types.{
  os_error, raised, write_pem, open_pem, append_log, noted, save_state, disk_failed, Slot, Content,
  key_pem, cert_pem, unreadable, Certificate, State, Outcome, ok, Machine, Services, Config,
}
use postfix_m365_relay.Machine.Exec.{emitted, gets}
use postfix_m365_relay.Machine.Files.{
  file_at, unlink, write_file, replace, replace_with, parse_cert, load,
}
use postfix_m365_relay.Machine.Actions.{log, written, write_state, stored_in}
use postfix_m365_relay.Machine.Triple.{
  Triple, Triple-bind, Triple-lift, Triple-fact, Triple-pure, Keeps-lift, After,
}

-- `write_state`, from what holds with the state written, without it on a dry run, and where it failed.
pub write_state-Triple :
    {P Q E : Machine → Type 0} (svc : Services) (cfg : Config) (state : State)
    → (cfg.dry_run ≡ false → (s : Machine) → P s → Q (stored_in svc cfg state s))
    → (cfg.dry_run ≡ true → (s : Machine) → P s → Q s)
    → ((s : Machine) → P s → E (emitted (disk_failed save_state) s))
    → Triple P (write_state svc cfg state) (λ _. Q) E
unfolding write_state
write_state-Triple {P} {Q} {E} svc cfg state stores kept lost = record {
  run = λ s h. by_flags cfg.dry_run (svc.fails save_state s.history) stores kept s h;
}
  where
    by_flags :
        (b f : Bool)
        → (b ≡ false → (s : Machine) → P s → Q (stored_in svc cfg state s))
        → (b ≡ true → (s : Machine) → P s → Q s)
        → (s : Machine) → P s
        → let r : Outcome (Unit {0}) × Machine =
            (if b
              then (ok tt, s)
              else written svc cfg f save_state (stored_in svc cfg state s) s) in
          After (λ _. Q) E r.0 r.1
    by_flags true f w k s h = k refl s h
    by_flags false true w k s h = lost s h
    by_flags false false w k s h = w refl s h

pub log-Triple :
    {P Q E : Machine → Type 0} (svc : Services) (cfg : Config) (step outcome : String)
    → ((s : Machine) → P s → Q (emitted (noted step outcome) s))
    → ((s : Machine) → P s → Q s)
    → ((s : Machine) → P s → E (emitted (disk_failed append_log) s))
    → Triple P (log svc cfg step outcome) (λ _. Q) E
unfolding log
log-Triple {P} {Q} {E} svc cfg step outcome after kept lost = record {
  run = λ s h. by_flags cfg.dry_run (svc.fails append_log s.history) s h;
}
  where
    by_flags :
        (b f : Bool) (s : Machine)
        → P s
        → let r : Outcome (Unit {0}) × Machine =
            (if b
              then (ok tt, s)
              else written svc cfg f append_log (emitted (noted step outcome) s) s) in
          After (λ _. Q) E r.0 r.1
    by_flags true f s h = kept s h
    by_flags false true s h = lost s h
    by_flags false false s h = after s h

module _ {P Q E : Machine → Type 0} where
  pub unlink-Triple :
      (slot : Slot)
      → ((s : Machine) → P s → Q (file_at slot none s))
      → Triple P (unlink slot) (λ _. Q) E
  unfolding unlink
  unlink-Triple slot h = record { run = h }

  -- A write of a credential file: done, not opened, or cut short.
  pub write_file-Triple :
      (svc : Services) (slot : Slot) (content : Content)
      → ((s : Machine) → P s → Q (file_at slot (some content) s))
      → ((s : Machine)
          → svc.fails (open_pem slot) s.history ≡ true
          → P s
          → E (emitted (disk_failed (open_pem slot)) s))
      → ((s : Machine)
          → P s
          → E (emitted (disk_failed (write_pem slot)) (file_at slot (some unreadable) s)))
      → Triple P (write_file svc slot content) (λ _. Q) E
  unfolding write_file
  write_file-Triple svc slot content done shut torn = record {
    run = λ s h.
        by_flags s (svc.fails (open_pem slot) s.history) (svc.fails (write_pem slot) s.history) refl
          h;
  }
    where
      by_flags :
          (s : Machine) (o w : Bool)
          → svc.fails (open_pem slot) s.history ≡ o
          → P s
          → let r : Outcome (Unit {0}) × Machine =
              (if o
                then (raised os_error, emitted (disk_failed (open_pem slot)) s)
                else if w
                then (
                  raised os_error,
                  emitted (disk_failed (write_pem slot)) (file_at slot (some unreadable) s),
                )
                else (ok tt, file_at slot (some content) s)) in
            After (λ _. Q) E r.0 r.1
      by_flags s true w e h = shut s e h
      by_flags s false true e h = torn s h
      by_flags s false false e h = done s h

  -- `os.replace` moves the file that is there, or raises.
  pub replace-Triple :
      (from to : Slot)
      → ((s : Machine) (c : Content)
          → s.files from ≡ some c
          → P s
          → Q (file_at from none (file_at to (some c) s)))
      → ((s : Machine) → P s → E s)
      → Triple P (replace from to) (λ _. Q) E
  unfolding replace
  replace-Triple from to moved missing = record { run = λ s h. at (s.files from) refl s h refl }
    where
      at :
          (o : Option Content)
          → o ≡ o
          → (s : Machine) → P s
          → s.files from ≡ o
          → After (λ _. Q) E (replace_with from to o s).0 (replace_with from to o s).1
      at none _ s h e = missing s h
      at (some c) _ s h e = moved s c e h

parsed_cert :
    (o : Option Content) (cert : Certificate) → parse_cert o ≡ ok cert → o ≡ some (cert_pem cert)
parsed_cert none cert h = cc
parsed_cert (some (key_pem key)) cert h = cc
parsed_cert (some (cert_pem c)) cert h = cc
parsed_cert (some unreadable) cert h = cc

-- `_load` changes nothing, and what it returns is what the files hold.
pub load-Triple :
    {P : Machine → Type 0} (k c : Slot)
    → Triple P (load k c) (λ pair s. P s × (s.files c ≡ some (cert_pem pair.cert))) P
unfolding load gets
load-Triple {P} k c =
    Triple-bind {R = λ file s. P s} (record { run = λ s h. h })
      λ key_file. Triple-bind {R = λ key s. P s} (Keeps-lift _) λ key.
        Triple-bind {R = λ file s. P s × (s.files c ≡ file)} (record { run = λ s h. (h, refl) })
          λ cert_file. Triple-bind (Triple-lift (parse_cert cert_file) (λ s h. h.0)) λ cert.
            Triple-fact
              λ parsed. Triple-pure _ (λ s h. (h.0, h.1 ∙ parsed_cert cert_file cert parsed))
