-- ===== src/Tests/Fixture.antt =====
-- Services that accept everything: a rotation that succeeds.
use postfix_m365_relay.Base.{
  ◌/◌, same, ℕ, ◌+◌, ◌*◌, Bool, true, false, none, some, [], ◌∷◌, codes, Text, pos, any,
  if◌then◌else◌,
}
use postfix_m365_relay.Credential.Thumbprint.{Credential}
use postfix_m365_relay.Machine.Types.{
  unreadable, http_error, url_error, recovery_cert, recovery_key, raised, empty_state, Certificate,
  live_key, live_cert, new_cert, key_pem, cert_pem, Files, ok, Event, called, GraphRequest, get_app,
  post_add, post_remove, HttpAnswer, response, app, created, empty_body, History, Machine, Services,
  Config,
}
use postfix_m365_relay.Machine.Files.{Pair, update}

abbrev pub old_digest : Text
old_digest = codes "AAAAAAAAAABBBBBBBBBBCCCCCCCCCCDDDDDDDDDD"

abbrev pub fresh_digest : Text
fresh_digest = codes "0123456789ABCDEF0123456789ABCDEF01234567"

abbrev pub noon : ℕ
noon = 1_700_000_000_000_000

abbrev pub old_cert : Certificate
old_cert = record {
  digest = old_digest;
  public_key = 1;
  subject = codes "relay";
  not_before = noon;
  not_after = noon + 86_400_000_000 * 30;
}

abbrev pub old_pair : Pair
old_pair = record { key = 1; cert = old_cert }

abbrev pub old_key : Credential
old_key = record {
  key_id = codes "k-old";
  custom_key_identifier = some old_digest;
  display_name = none;
}

abbrev pub fresh_key : Credential
fresh_key = record {
  key_id = codes "k-new";
  custom_key_identifier = some fresh_digest;
  display_name = some (codes "postfix-m365-relay mail relay inst:a (rotated 2026-01-01)");
}

abbrev is_addition : Event → Bool
is_addition (called (post_add cert name proof) answer) = true
is_addition _ = false

abbrev is_removal : Event → Bool
is_removal (called (post_remove key_id proof) answer) = true
is_removal _ = false

-- Graph: one key before addKey, both after it, the old one gone after a removal.
abbrev pub answers : GraphRequest → History → HttpAnswer
answers get_app history = response 200 (
    app (
      if any is_removal history
      then []
      else if any is_addition history
      then fresh_key ∷ old_key ∷ []
      else old_key ∷ []))
answers (post_remove key_id proof) history = response 204 empty_body
answers (post_add cert name proof) history = response 200 (created (codes "k-new"))

abbrev pub accepting : Services
accepting = record {
  now = λ h. noon;
  generate_key = λ bits h. 2;
  fingerprint = λ key subject h. fresh_digest;
  token_endpoint = λ request h. ok (codes "token");
  graph_endpoint = λ request bearer h. answers request h;
  submit = λ bearer to thumbprint h. true;
  refresh = λ h. true;
  token_expiry = λ h. none;
  fails = λ call h. false;
}

-- The same, but no message is accepted.
abbrev pub refusing : Services
refusing = record accepting { submit = λ bearer to thumbprint h. false }

abbrev pub settings : Config
settings = record {
  tenant = codes "tenant";
  client_id = codes "client";
  instance_id = codes "a";
  dry_run = false;
  validity = pos 730;
  renew_at = pos 365;
  key_bits = 2048;
  subject = codes "relay";
  grace_days = pos 7;
  force = false;
  yes_flag = false;
  yes_other_flag = false;
  recipient = some (codes "admin@example.com");
  port = some 587;
  today = codes "2026-01-01";
  has_alert = false;
  recovery_enabled = true;
  need_streak = 6;
  need_seconds = 21600;
}

abbrev pub disk : Files
disk live_key = some (key_pem 1)
disk live_cert = some (cert_pem old_cert)
disk _ = none

abbrev pub start : Machine
start = record { history = []; files = disk; saved = none }

-- The pair that a rotation makes.
abbrev pub fresh_pair : Pair
fresh_pair = record { key = 2; cert = record old_cert { digest = fresh_digest } }

-- The fresh pair is staged beside the live one.
abbrev pub staged : Machine
staged = record start { files = update new_cert (some (cert_pem fresh_pair.cert)) disk }

-- No recipient is configured.
abbrev pub lonely : Config
lonely = record settings { recipient = none }

-- The operator insists.
abbrev pub insisting : Config
insisting = record settings { yes_flag = true }

-- Entra no longer knows the old certificate, and knows every other.
abbrev pub revoking : Services
revoking = record accepting {
  token_endpoint = λ request h.
      if same request.assertion.x5t old_digest
      then raised (http_error 401 (codes "AADSTS700027"))
      else ok (codes "token");
}

-- Entra cannot be reached; it refuses every certificate; and the relay has a token that lasts.
abbrev pub offline : Services
offline = record accepting { token_endpoint = λ request h. raised url_error }

abbrev pub dead : Services
dead = record accepting {
  token_endpoint = λ request h. raised (http_error 401 (codes "AADSTS700027"));
}

abbrev pub healthy : Services
healthy = record accepting { token_expiry = λ h. some (noon / 1_000_000 + 3600) }

-- A standby is staged and waits for its upload.
abbrev pub waiting : Machine
waiting = record start {
  files =
      update recovery_key (some (key_pem 2))
        (update recovery_cert (some (cert_pem fresh_pair.cert)) disk);
  saved = some (record empty_state {
    recovery = some (record { thumbprint = fresh_digest; generated_at = 1 });
  });
}

-- So many failures have been counted since the first second.
abbrev pub counted : ℕ → Machine
counted streak = record start {
  saved = some (record empty_state { cert_fault_streak = some streak; cert_fault_since = some 1 });
}

-- The live certificate cannot be read.
abbrev pub corrupt : Machine
corrupt = record start { files = update live_cert (some unreadable) disk }
