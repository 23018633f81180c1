-- ===== src/Machine/Types.antt =====
-- The data of the rotation script: certificates, files, the state file, requests and answers.
use postfix_m365_relay.Base.{ℕ, Bool, Option, none, List, String, Text, ℤ}
use postfix_m365_relay.Credential.Thumbprint.{Credential}
use postfix_m365_relay.Credential.Failure.{ErrorBody}

-- A certificate as `cryptography` reads it. `digest` is `fingerprint(SHA1()).hex().upper()`; times are
-- microseconds since 1970; a key is a number that stands for the key pair.
pub record Certificate : Type 0 where
  pub digest : Text
  pub public_key : ℕ
  pub subject : Text
  pub not_before : ℕ
  pub not_after : ℕ

-- The credential files: the live pair, and the pairs with the suffixes .new, .previous, .recovery.
pub data Slot : Type 0 where
  live_key live_cert new_key new_cert : Slot
  previous_key previous_cert recovery_key recovery_cert : Slot

pub data Content : Type 0 where
  key_pem : ℕ → Content
  cert_pem : Certificate → Content
  unreadable : Content

-- `none` is a file that is not there.
abbrev pub Files : Type 0
Files = Slot → Option Content

-- Times in the state file are whole seconds.
pub record PendingAddition : Type 0 where
  pub key_id : Text
  pub thumbprint : Text
  pub added_at : ℕ

pub record PendingRemoval : Type 0 where
  pub key_id : Text
  pub thumbprint : Text
  pub rotated_at : ℕ

pub record Standby : Type 0 where
  pub thumbprint : Text
  pub generated_at : ℕ

-- The dictionary in cert-rotation-state.json; `none` is a missing key.
pub record State : Type 0 where
  pub pending_addition : Option PendingAddition
  pub pending_removal : Option PendingRemoval
  pub recovery : Option Standby
  pub cert_fault_streak : Option ℕ
  pub cert_fault_since : Option ℕ
  pub reset_replaced : Option Standby

abbrev pub empty_state : State
empty_state = record {
  pending_addition = none;
  pending_removal = none;
  recovery = none;
  cert_fault_streak = none;
  cert_fault_since = none;
  reset_replaced = none;
}

-- The exceptions that the script tells apart.
pub data Failure : Type 0 where
  http_error : ℕ → Text → Failure
  url_error os_error value_error attribute_error key_error type_error other_error : Failure

pub data Outcome {ℓ} (A : Type ℓ) : Type ℓ where
  ok : A → Outcome A
  raised : Failure → Outcome A

-- The claims of a JWT that `_sign` signs, without the random `jti`; times in seconds.
pub record Claims : Type 0 where
  pub aud : Text
  pub iss : Text
  pub sub : Option Text
  pub nbf : ℕ
  pub exp : ℕ

-- A signed assertion: the thumbprint in its header, the key that signed it, and the claims.
pub record Assertion : Type 0 where
  pub x5t : Text
  pub key : ℕ
  pub claims : Claims

pub data Scope : Type 0 where
  outlook graph_default : Scope

pub record TokenRequest : Type 0 where
  pub client_id : Text
  pub scope : Scope
  pub assertion : Assertion

-- The three Graph requests on the application.
pub data GraphRequest : Type 0 where
  get_app : GraphRequest
  post_remove : Text → Assertion → GraphRequest
  post_add : Certificate → Text → Assertion → GraphRequest

-- The JSON value, or the text of an HTTPError, that `graph` returns beside the status.
pub data Body : Type 0 where
  empty_body : Body
  app : List Credential → Body
  created : Text → Body
  empty_object other_object : Body
  error_body : ErrorBody → Body

pub data HttpAnswer : Type 0 where
  response : ℕ → Body → HttpAnswer
  refused : ℕ → ErrorBody → HttpAnswer
  unreachable bad_json : HttpAnswer

-- The writes of the script, each of which can raise an OSError: a line of the log; the state file, which
-- is replaced whole; and a key or certificate file, where opening fails with the file as it was, and
-- writing with the file cut short.
pub data DiskCall : Type 0 where
  append_log save_state : DiskCall
  open_pem write_pem : Slot → DiskCall

-- What the script has done, with the answers that it got.
pub data Event : Type 0 where
  slept : ℕ → Event
  generated : Text → Event
  minted : Scope → Text → Outcome Text → Event
  called : GraphRequest → HttpAnswer → Event
  proof_sent : Text → Text → Bool → Event
  refreshed : Bool → Event
  noted : String → String → Event
  stored : State → Event
  filed : Slot → Option Content → Event
  operator_told : String → Event
  alerted : Event
  disk_failed : DiskCall → Event

-- Newest first.
abbrev pub History : Type 0
History = List Event

pub record Machine : Type 0 where
  pub history : History
  pub files : Files
  pub saved : Option State

-- Everything outside of the script, each answer a function of all that has happened before: the
-- clock, `cryptography`, Entra's token endpoint, Graph, the SMTP submission, the helper scripts.
pub record Services : Type 0 where
  pub now : History → ℕ
  pub generate_key : ℕ → History → ℕ
  pub fingerprint : ℕ → Text → History → Text
  pub token_endpoint : TokenRequest → History → Outcome Text
  pub graph_endpoint : GraphRequest → Text → History → HttpAnswer
  pub submit : Text → Text → Text → History → Bool
  pub refresh : History → Bool
  pub token_expiry : History → Option ℕ
  pub fails : DiskCall → History → Bool

-- The configuration of one run: `Rotation`'s fields and the command line. `port` is none where
-- MAIL_UPSTREAM_PORT is no number.
pub record Config : Type 0 where
  pub tenant : Text
  pub client_id : Text
  pub instance_id : Text
  pub dry_run : Bool
  pub validity : ℤ
  pub renew_at : ℤ
  pub key_bits : ℕ
  pub subject : Text
  pub grace_days : ℤ
  pub force : Bool
  pub yes_flag : Bool
  pub yes_other_flag : Bool
  pub recipient : Option Text
  pub port : Option ℕ
  pub today : Text
  pub has_alert : Bool
  pub recovery_enabled : Bool
  pub need_streak : ℕ
  pub need_seconds : ℕ
