-- ===== src/Machine/Files.antt =====
-- The credential files: `os.replace`, `unlink(missing_ok=True)`, `write_bytes` and `_load`.
use postfix_m365_relay.Base.{
  ◌≡◌, Bool, true, false, ℕ, Option, none, some, ◌==◌, if◌then◌else◌, ◌∷◌,
}
use postfix_m365_relay.Machine.Types.{
  Slot, live_key, live_cert, new_key, new_cert, previous_key, previous_cert, recovery_key,
  recovery_cert, Content, key_pem, cert_pem, Files, Certificate, Machine, Outcome, ok, raised,
  os_error, value_error, filed, unreadable, disk_failed, open_pem, write_pem, DiskCall, History,
  Services,
}
use postfix_m365_relay.Machine.Exec.{emitted, Exec, lift, pure, raise, gets, ◌>>=◌, ◌>>◌}

abbrev pub slot_index : Slot → ℕ
slot_index live_key = 0
slot_index live_cert = 1
slot_index new_key = 2
slot_index new_cert = 3
slot_index previous_key = 4
slot_index previous_cert = 5
slot_index recovery_key = 6
slot_index recovery_cert = 7

abbrev pub update : Slot → Option Content → Files → Files
update slot content files other =
    if slot_index slot == slot_index other then content else files other

abbrev pub file_at : Slot → Option Content → Machine → Machine
file_at slot content s = record s {
  history = filed slot content ∷ s.history;
  files = update slot content s.files;
}

-- Writing a file whole, or removing it.
unfoldable pub set_file : Slot → Option Content → Exec (Unit {0})
set_file slot content s = (ok tt, file_at slot content s)

unfoldable pub unlink : Slot → Exec (Unit {0})
unfolding set_file
unlink slot s = set_file slot none s

-- Opening truncates: a write that fails after it leaves a file that cannot be read.
unfoldable pub write_file : Services → Slot → Content → Exec (Unit {0})
unfolding set_file
write_file svc slot content s =
    if svc.fails (open_pem slot) s.history
    then (raised os_error, emitted (disk_failed (open_pem slot)) s)
    else if svc.fails (write_pem slot) s.history
    then (
      raised os_error,
      emitted (disk_failed (write_pem slot)) (file_at slot (some unreadable) s),
    )
    else set_file slot (some content) s

-- No write of the script fails.
abbrev pub IsQuiet : Services → Type 0
IsQuiet svc = (call : DiskCall) (h : History) → svc.fails call h ≡ false

abbrev pub holds_certs : Slot → Bool
holds_certs live_cert = true
holds_certs new_cert = true
holds_certs previous_cert = true
holds_certs recovery_cert = true
holds_certs _ = false

-- A certificate file can always be opened for writing.
abbrev pub CertsOpen : Services → Type 0
CertsOpen svc =
    (slot : Slot) (h : History) → holds_certs slot ≡ true → svc.fails (open_pem slot) h ≡ false

unfoldable pub replace_with : Slot → Slot → Option Content → Exec (Unit {0})
unfolding set_file ◌>>=◌ raise
replace_with from to none = raise os_error
replace_with from to (some content) = set_file to (some content) >> set_file from none

-- `os.replace(from, to)`
unfoldable pub replace : Slot → Slot → Exec (Unit {0})
unfolding replace_with
replace from to s = replace_with from to (s.files from) s

abbrev pub parse_key : Option Content → Outcome ℕ
parse_key none = raised os_error
parse_key (some (key_pem key)) = ok key
parse_key (some _) = raised value_error

abbrev pub parse_cert : Option Content → Outcome Certificate
parse_cert none = raised os_error
parse_cert (some (cert_pem cert)) = ok cert
parse_cert (some _) = raised value_error

pub record Pair : Type 0 where
  pub key : ℕ
  pub cert : Certificate

-- `_load(key_path, cert_path)`
unfoldable pub load : Slot → Slot → Exec Pair
load key_slot cert_slot = do
  key_file ← gets (λ s. s.files key_slot)
  key ← lift (parse_key key_file)
  cert_file ← gets (λ s. s.files cert_slot)
  cert ← lift (parse_cert cert_file)
  pure (record { key = key; cert = cert })
