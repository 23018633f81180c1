-- ===== src/Alert/Report.antt =====
-- What an incident's report says: `build_payload` and `email_body` of scripts/alert-event.py.
-- The form of a time and of a time zone is a parameter.
pub mod Mentions
use postfix_m365_relay.Base.{
  zero, ltb, ◌+◌, ◌%◌, none, same, if◌then◌else◌, some, ◌++◌, ◌/◌, suc, ◌∷◌, [], ◌-◌, Text, Option,
  codes, List, refl, ℕ,
}
use postfix_m365_relay.Alert.Guidance.{guidance}
use postfix_m365_relay.Alert.Outbox.{second, Payload}
use postfix_m365_relay.Alert.Redact.{redact}

-- What the environment and the clock's formats give.
pub record Locale : Type 0 where
  pub relay : Text
  pub zone : Text
  pub runbook_url : Text
  pub utc : ℕ → Text
  pub local : ℕ → Text

-- The JSON payload, less its constant fields; the times of a recovery are there with that status only.
pub record Report : Type 0 where
  pub relay : Text
  pub status : Text
  pub severity : Text
  pub event : Text
  pub reference_id : Text
  pub first_observed_utc : Text
  pub observed_utc : Text
  pub observed_local : Text
  pub zone : Text
  pub duration_seconds : ℕ
  pub occurrence_count : ℕ
  pub summary : Text
  pub evidence : Text
  pub likely_causes : List Text
  pub remediation : List Text
  pub runbook_url : Text
  pub recovered : Option (Text × Text)

-- `build_payload(incident, status, now, detail)`, of the fields of the incident and the caller's detail
unfoldable pub build_report : Locale → Payload → Text → Report
build_report locale payload detail = record {
  relay = locale.relay;
  status = payload.status;
  severity = payload.severity;
  event = payload.event;
  reference_id = payload.reference_id;
  first_observed_utc = locale.utc payload.first_observed;
  observed_utc = locale.utc payload.observed;
  observed_local = locale.local payload.observed;
  zone = locale.zone;
  duration_seconds = (payload.observed - payload.first_observed) / second;
  occurrence_count = payload.occurrence_count;
  summary = payload.event ++ (codes " is " ++ payload.status);
  evidence = redact detail;
  likely_causes = (guidance payload.event).causes;
  remediation = (guidance payload.event).remedies;
  runbook_url = locale.runbook_url;
  recovered =
      if same payload.status (codes "recovered")
      then some (locale.utc payload.observed, locale.local payload.observed)
      else none;
}

-- A number in decimal digits; as many steps as the number are enough.
abbrev decimal_from : ℕ → ℕ → Text → Text
decimal_from zero n digits = digits
decimal_from (suc steps) n digits =
    let more = decimal_from steps (n / 10) ((n % 10 + b'0') ∷ digits) in
    if ltb n 10 then (n + b'0') ∷ digits else more

unfoldable pub decimal : ℕ → Text
decimal n = decimal_from (suc n) n []

-- `"\n".join(f"- {item}" for item in items)`
abbrev pub bullets : List Text → Text
bullets [] = []
bullets (item ∷ []) = codes "- " ++ item
bullets (item ∷ next ∷ items) = codes "- " ++ (item ++ (10 ∷ bullets (next ∷ items)))

abbrev pub recovered_lines : Option (Text × Text) → Text
recovered_lines none = []
recovered_lines (some (utc, local)) =
    codes "Recovered (UTC): " ++ (utc ++ (codes "\nRecovered (local): " ++ (local ++ (10 ∷ []))))

abbrev pub concat : List Text → Text
concat [] = []
concat (t ∷ texts) = t ++ concat texts

-- The pieces of `email_body`, in their order.
unfoldable pub email_parts : Report → List Text
email_parts r =
    codes "Status: "
    ∷ r.status
    ∷ codes "\nSeverity: "
    ∷ r.severity
    ∷ codes "\nEvent: "
    ∷ r.event
    ∷ codes "\nReference: "
    ∷ r.reference_id
    ∷ codes "\nRelay: "
    ∷ r.relay
    ∷ codes "\nFirst observed (UTC): "
    ∷ r.first_observed_utc
    ∷ codes "\nObserved (UTC): "
    ∷ r.observed_utc
    ∷ codes "\nObserved (local): "
    ∷ r.observed_local
    ∷ codes " ["
    ∷ r.zone
    ∷ codes "]\n"
    ∷ recovered_lines r.recovered
    ∷ codes "Duration: "
    ∷ decimal r.duration_seconds
    ∷ codes " seconds\nOccurrences: "
    ∷ decimal r.occurrence_count
    ∷ codes "\n\nEvidence\n"
    ∷ r.evidence
    ∷ codes "\n\nLikely causes\n"
    ∷ bullets r.likely_causes
    ∷ codes "\n\nSuggested actions\n"
    ∷ bullets r.remediation
    ∷ codes "\n\nRunbook\n"
    ∷ r.runbook_url
    ∷ codes "\n"
    ∷ []

unfoldable pub email_body : Report → Text
email_body r = concat (email_parts r)

-- The subject of `deliver_email`.
unfoldable pub email_subject : Report → Text
email_subject r = concat (
    codes "["
    ∷ (if same r.status (codes "recovered") then codes "recovered" else r.severity)
    ∷ codes "] postfix-m365-relay "
    ∷ r.status
    ∷ codes ": "
    ∷ r.event
    ∷ codes " ("
    ∷ r.reference_id
    ∷ codes ")"
    ∷ [])
