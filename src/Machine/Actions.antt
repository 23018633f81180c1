-- ===== src/Machine/Actions.antt =====
-- What the script asks of the services: `log`, `read_state`, `write_state`, `_sign`, `token`, `proof`,
-- `graph`, `days_remaining`, `make_certificate` and `send_proof_message`
-- (scripts/rotate-smtp-relay-cert.py). The free text of a log line is not modelled.
use postfix_m365_relay.Base.{
  false, true, ℕ, ◌+◌, ◌-◌, ◌*◌, ◌/◌, Bool, Option, none, some, List, [], ◌∷◌, ◌++◌, leb,
  if◌then◌else◌, String, Text, codes, ℤ, pos, negsuc, pos_part,
}
use postfix_m365_relay.Credential.Failure.{ErrorBody, envelope, plain}
use postfix_m365_relay.Credential.Thumbprint.{Credential}
use postfix_m365_relay.Machine.Types.{
  disk_failed, os_error, DiskCall, append_log, save_state, empty_object, Certificate, State,
  empty_state, url_error, value_error, attribute_error, key_error, type_error, Outcome, ok, raised,
  Claims, Assertion, Scope, TokenRequest, GraphRequest, Body, empty_body, app, created,
  other_object, error_body, HttpAnswer, response, refused, unreachable, bad_json, slept, generated,
  minted, called, proof_sent, refreshed, noted, stored, operator_told, alerted, Machine, Services,
  Config,
}
use postfix_m365_relay.Machine.Exec.{Exec, lift, gets, emit, emitted}
use postfix_m365_relay.Machine.Files.{Pair}

abbrev pub second : ℕ
second = 1_000_000

abbrev pub day : ℕ
day = 86_400_000_000

-- `int(time.time())`, from the clock's microseconds
abbrev pub seconds : ℕ → ℕ
seconds now = now / second

-- `timedelta.days`, which rounds down below zero too.
unfoldable pub days_remaining : Certificate → ℕ → ℤ
days_remaining cert now =
    if leb now cert.not_after
    then pos ((cert.not_after - now) / day)
    else negsuc ((now - cert.not_after - 1) / day)

-- The claims of `token`'s assertion and of `proof`, at a time in seconds.
unfoldable pub token_claims : Config → ℕ → Claims
token_claims cfg now = record {
  aud = codes "https://login.microsoftonline.com/" ++ (cfg.tenant ++ codes "/oauth2/v2.0/token");
  iss = cfg.client_id;
  sub = some cfg.client_id;
  nbf = now - 60;
  exp = now + 600;
}

unfoldable pub proof_claims : Config → ℕ → Claims
proof_claims cfg now = record {
  aud = codes "00000002-0000-0000-c000-000000000000";
  iss = cfg.client_id;
  sub = none;
  nbf = now;
  exp = now + 600;
}

-- `_sign(_header(cert), claims, key)`
abbrev pub sign : Pair → Claims → Assertion
sign pair claims = record { x5t = pair.cert.digest; key = pair.key; claims = claims }

-- `graph`: an HTTPError is an answer with its code, any other failure is raised.
abbrev pub graph_result : HttpAnswer → Outcome (ℕ × Body)
graph_result (response status body) = ok (status, body)
graph_result (refused status body) = ok (status, error_body body)
graph_result unreachable = raised url_error
graph_result bad_json = raised value_error

-- `app.get("keyCredentials", [])`
unfoldable pub key_credentials : Body → Outcome (List Credential)
key_credentials (app credentials) = ok credentials
key_credentials (created key_id) = ok []
key_credentials empty_object = ok []
key_credentials other_object = ok []
key_credentials _ = raised attribute_error

-- `result["keyId"]`
unfoldable pub key_id_of : Body → Outcome Text
key_id_of (created key_id) = ok key_id
key_id_of (app credentials) = raised key_error
key_id_of empty_object = raised key_error
key_id_of other_object = raised key_error
key_id_of _ = raised type_error

-- A Graph answer as `remove_key_already_gone` looks at it. A value that is no text has no error in it.
unfoldable pub error_of : Body → ErrorBody
error_of (error_body e) = e
error_of empty_body = plain (codes "None")
error_of _ = envelope [] []

-- `value or {}` of a state that may be missing.
abbrev pub or_empty_state : Option State → State
or_empty_state none = empty_state
or_empty_state (some state) = state

unfoldable pub read_state : Exec State
unfolding gets
read_state s = gets (λ t. or_empty_state t.saved) s

module _ (svc : Services) (cfg : Config) where
  unfoldable pub clock : Exec ℕ
  unfolding gets
  clock s = gets (λ t. svc.now t.history) s

  unfoldable pub sleep : ℕ → Exec (Unit {0})
  unfolding emit
  sleep n s = emit (slept n) s

  -- A write that fails leaves what was there and raises.
  abbrev pub written : Bool → DiskCall → Machine → Machine → Outcome (Unit {0}) × Machine
  written true call done s = (raised os_error, emitted (disk_failed call) s)
  written false call done s = (ok tt, done)

  unfoldable pub log : String → String → Exec (Unit {0})
  log step outcome s =
      if cfg.dry_run
      then (ok tt, s)
      else written (svc.fails append_log s.history) append_log (emitted (noted step outcome) s) s

  abbrev pub stored_in : State → Machine → Machine
  stored_in state s = record s { history = stored state ∷ s.history; saved = some state }

  unfoldable pub write_state : State → Exec (Unit {0})
  write_state state s =
      if cfg.dry_run
      then (ok tt, s)
      else written (svc.fails save_state s.history) save_state (stored_in state s) s

  unfoldable pub token_request : Scope → Pair → ℕ → TokenRequest
  token_request scope pair now = record {
    client_id = cfg.client_id;
    scope = scope;
    assertion = sign pair (token_claims cfg (seconds now));
  }

  -- `token(scope, key, cert)`, which raises where no token comes back
  unfoldable pub token : Scope → Pair → Exec Text
  unfolding token_request
  token scope pair s =
      let answer = svc.token_endpoint (token_request scope pair (svc.now s.history)) s.history in
      (answer, emitted (minted scope pair.cert.digest answer) s)

  unfoldable pub proof : Pair → Exec Assertion
  unfolding gets
  proof pair s = gets (λ t. sign pair (proof_claims cfg (seconds (svc.now t.history)))) s

  unfoldable pub graph : GraphRequest → Text → Exec (ℕ × Body)
  graph request bearer s =
      let answer = svc.graph_endpoint request bearer s.history in
      (graph_result answer, emitted (called request answer) s)

  -- `make_certificate(validity, key_bits, subject)` for the OAuth identity, with its fresh key.
  abbrev pub certificate_for : ℕ → Text → ℕ → Certificate
  certificate_for key digest now = record {
    digest = digest;
    public_key = key;
    subject = cfg.subject;
    not_before = now - 300 * second;
    not_after = now + pos_part cfg.validity * day;
  }

  unfoldable pub make_certificate : Exec Pair
  make_certificate s =
      let key = svc.generate_key cfg.key_bits s.history in
      let digest = svc.fingerprint key cfg.subject s.history in
      (
        ok (record { key = key; cert = certificate_for key digest (svc.now s.history) }),
        emitted (generated digest) s,
      )

  -- `send_proof_message`, which reports every exception as a message that was not sent
  unfoldable pub send_proof_message : Text → Text → Text → Exec Bool
  send_proof_message bearer to thumbprint s =
      let sent = svc.submit bearer to thumbprint s.history in
      (ok sent, emitted (proof_sent bearer thumbprint sent) s)

  -- `int(env.get("MAIL_UPSTREAM_PORT", SMTP_PORT))`
  unfoldable pub upstream_port : Exec ℕ
  unfolding lift
  upstream_port s = lift (elim cfg.port [ none ↦ raised value_error | some port ↦ ok port ]) s

  -- `run_immediate_token_refresh`
  unfoldable pub run_immediate_token_refresh : Exec Bool
  run_immediate_token_refresh s =
      let done = svc.refresh s.history in (ok done, emitted (refreshed done) s)

  -- `_cert_action`
  unfoldable pub cert_action : String → Exec (Unit {0})
  unfolding emit
  cert_action action s = emit (operator_told action) s

  unfoldable pub send_alert : Exec (Unit {0})
  send_alert s = if cfg.has_alert then (ok tt, emitted alerted s) else (ok tt, s)
