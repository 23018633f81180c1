-- ===== src/Alert/Entry.antt =====
-- The beginning of `main` of scripts/alert-event.py: the name of an event becomes the name of a file.
use postfix_m365_relay.Base.{
  [], ◌∙◌, not, leb, all, sym, length, ◌≤◌, ◌&&◌, if◌then◌else◌, arith, ap, same, same_iff, ◌∷◌,
  ◌==◌, true, ◌||◌, false, ◌≡◌, Bool, Text, refl, ℕ,
}
use postfix_m365_relay.Alert.Incident.{notify, run_command, recover, Store, open_incident, Command}
use postfix_m365_relay.Alert.Outbox.{Courier}
use postfix_m365_relay.Credential.Ascii.{within}
use postfix_m365_relay.Alert.Abstract.{run_command-step, step, is_open}

-- `[a-z0-9]`, and `[a-z0-9-]`
abbrev pub is_name_start : ℕ → Bool
is_name_start c = within b'a' b'z' c || within b'0' b'9' c

abbrev pub is_name_char : ℕ → Bool
is_name_char c = is_name_start c || c == b'-'

-- `EVENT_RE.fullmatch(args.event)`
unfoldable pub is_event_name : Text → Bool
is_event_name [] = false
is_event_name (c ∷ s) = is_name_start c && all is_name_char s && leb (length s) 63

abbrev pub event_of : Command → Text
event_of (open_incident severity event) = event
event_of (recover event) = event
event_of (notify severity event) = event

module _ (courier : Courier) (now : ℕ) where
  abbrev pub exit_of : Bool × Store → ℕ × Store
  exit_of (ok, store) = (if ok then 0 else 1, store)

  -- A name that does not match ends the run before anything is read or retried.
  unfoldable pub alert_main : Text → Command → Store → ℕ × Store
  alert_main reference command store =
      if is_event_name (event_of command)
      then exit_of (run_command courier now reference command store)
      else (1, store)

  -- Every recorded incident is of an event that has a name.
  abbrev pub AreNamed : Store → Type 0
  AreNamed store = (event : Text) → is_open store event ≡ true → is_event_name event ≡ true

  step-named :
      (command : Command) (store : Store) (event : Text)
      → is_event_name (event_of command) ≡ true
      → AreNamed store
      → step command (is_open store) event ≡ true
      → is_event_name event ≡ true
  step-named (open_incident severity e) store event h k s = by_event (same event e) refl s
    where
      by_event :
          (b : Bool)
          → same event e ≡ b
          → (b || is_open store event) ≡ true
          → is_event_name event ≡ true
      by_event false found opened = k event opened
      by_event true found opened =
          let it = (same_iff event e).0 found in ap (λ t. is_event_name t) it ∙ h
  step-named (recover e) store event h k s = k event (ground arith)
  step-named (notify severity e) store event h k s = k event s

  run-named :
      (b : Bool) (reference : Text) (command : Command) (store : Store)
      → is_event_name (event_of command) ≡ b
      → AreNamed store
      → let r : ℕ × Store =
          (if b then exit_of (run_command courier now reference command store) else (1, store)) in
        AreNamed r.1
  run-named false reference command store h k = k
  run-named true reference command store h k = λ event opened.
      step-named command store event h k
        (sym (run_command-step courier now reference command store event) ∙ opened)

  -- Every incident that is recorded is of an event that has a name, and stays so: no run records one under
  -- a name that is refused, whatever the command.
  pub alert_main-AreNamed :
      (reference : Text) (command : Command) (store : Store)
      → AreNamed store
      → AreNamed (alert_main reference command store).1
  unfolding alert_main
  alert_main-AreNamed reference command store named =
      run-named (is_event_name (event_of command)) reference command store refl named

safe_char : (c : ℕ) → is_name_char c ≡ true → (not (c == b'/') && not (c == b'.')) ≡ true
safe_char c h = ground arith

safe_start : (c : ℕ) → is_name_start c ≡ true → (not (c == b'/') && not (c == b'.')) ≡ true
safe_start c h = ground arith

safe_chars :
    (s : Text) → all is_name_char s ≡ true → all (λ c. not (c == b'/') && not (c == b'.')) s ≡ true
safe_chars [] h = refl
safe_chars (c ∷ s) h =
    let here = safe_char c (ground arith) in rw here (safe_chars s (ground arith))

-- A name of an event is not empty, has at most 64 characters, and none that leads out of the directory
-- of the incidents: no slash and no dot.
pub is_event_name-safe :
    (event : Text)
    → is_event_name event ≡ true
    → (1 ≤ length event)
      × (length event ≤ 64)
      × (all (λ c. not (c == b'/') && not (c == b'.')) event ≡ true)
unfolding is_event_name
is_event_name-safe [] h = absurd (cc h)
is_event_name-safe (c ∷ s) h =
    let here = safe_start c (ground arith) in
    let rest = safe_chars s (ground arith) in
    let short : leb (length s) 63 ≡ true = ground arith in (omega arith, ground arith, rw here rest)
