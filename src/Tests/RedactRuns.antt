-- ===== src/Tests/RedactRuns.antt =====
-- Texts that `redact` censors.
use postfix_m365_relay.Base.{length, ◌≤◌, true, arith, all, Text, ◌≡◌, codes, refl}
use postfix_m365_relay.Alert.Redact.{
  is_segment, is_word, is_plain, to_end_line, match_pem, match_jwt, match_keyword, match_bearer,
  substitute, redact_pems, redact_jwts, redact_keywords, redact_bearer, prepared, redact,
}
use postfix_m365_relay.Credential.Ascii.{lower_char, is_space}
use postfix_m365_relay.Alert.Report.Mentions.{build_report-hides}
use postfix_m365_relay.Alert.Report.{
  decimal, email_parts, build_report, email_body, Locale, email_subject,
}
use postfix_m365_relay.Alert.Guidance.{guidance}
use postfix_m365_relay.Alert.Outbox.{Payload}
use postfix_m365_relay.Alert.Redact.Bearer.{IsBearer}

bearer_hidden :
    redact (codes "got Authorization: BEARER  abc.def, retry")
    ≡ codes "got Authorization: BEARER  [REDACTED], retry"
unfolding redact prepared redact_bearer redact_keywords redact_jwts redact_pems substitute
    match_bearer match_keyword match_jwt match_pem to_end_line is_plain is_word is_segment is_space
    lower_char
bearer_hidden = refl

keyword_hidden :
    redact (codes "Password = hunter2; client_secret:x,access_token=")
    ≡ codes "Password = [REDACTED]; client_secret:[REDACTED],access_token="
unfolding bearer_hidden
keyword_hidden = refl

jwt_hidden :
    redact (codes "t eyJ01234567890123456789.0123456789.012345678-9- x")
    ≡ codes "t [REDACTED-JWT]- x"
unfolding bearer_hidden
jwt_hidden = refl

pem_hidden :
    redact (codes "a -----BEGIN KEY-----\nAAA\n-----END KEY-----b") ≡ codes "a [REDACTED-PEM]b"
unfolding bearer_hidden
pem_hidden = refl

-- A quoted name is none of the words of a secret, so the secret behind it stays.
quoted_stays : redact (codes "{\"password\": \"hunter2\"}") ≡ codes "{\"password\": \"hunter2\"}"
unfolding bearer_hidden
quoted_stays = refl

abbrev here : Locale
here = record {
  relay = codes "relay";
  zone = codes "UTC";
  runbook_url = codes "https://runbook";
  utc = λ t. codes "12:00";
  local = λ t. codes "13:00";
}

abbrev outage : Payload
outage = record {
  status = codes "recovered";
  severity = codes "error";
  event = codes "relay-health";
  reference_id = codes "PMR-1";
  first_observed = 1_000_000;
  observed = 91_500_000;
  occurrence_count = 12;
}

outage_subject :
    email_subject (build_report here outage (codes "up"))
    ≡ codes "[recovered] postfix-m365-relay recovered: relay-health (PMR-1)"
unfolding email_subject build_report
outage_subject = refl

outage_body :
    email_body (build_report here (record outage { event = codes "x" }) (codes "up"))
    ≡ codes
        "Status: recovered\nSeverity: error\nEvent: x\nReference: PMR-1\nRelay: relay\nFirst observed (UTC): 12:00\nObserved (UTC): 12:00\nObserved (local): 13:00 [UTC]\nRecovered (UTC): 12:00\nRecovered (local): 13:00\nDuration: 90 seconds\nOccurrences: 12\n\nEvidence\nup\n\nLikely causes\n- The affected component reported the evidence shown below.\n\nSuggested actions\n- Inspect the referenced component logs and follow the relay runbook.\n\nRunbook\nhttps://runbook\n"
unfolding email_body email_parts build_report decimal guidance bearer_hidden
outage_body = refl

IsBearer-of :
    (token : Text)
    → all is_plain token ≡ true
    → 1 ≤ length token
    → IsBearer (codes "Bearer") (codes " ") token
unfolding lower_char is_space
IsBearer-of token plain some_token = record {
  named = refl;
  spaced = (refl, omega arith);
  secret = (plain, some_token);
}

build_report-hides_example :
    (build_report here outage (codes "sent Bearer abc, refused")
      ≡ build_report here outage (codes "sent Bearer xyz0, refused"))
    × (email_body (build_report here outage (codes "sent Bearer abc, refused"))
        ≡ email_body (build_report here outage (codes "sent Bearer xyz0, refused")))
unfolding lower_char is_space is_plain
build_report-hides_example =
    build_report-hides here outage (codes "sent ") (codes "Bearer") (codes " ") (codes "abc")
      (codes "xyz0") (codes ", refused") (IsBearer-of (codes "abc") refl (omega arith))
      (IsBearer-of (codes "xyz0") refl (omega arith)) refl refl (refl, omega arith)
      (refl, omega arith)
