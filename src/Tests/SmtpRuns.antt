-- ===== src/Tests/SmtpRuns.antt =====
-- Conversations with mail servers, and witnesses of the theorems on them.
use postfix_m365_relay.Base.{any, false, ◌≡◌, true, some, codes, [], refl}
use postfix_m365_relay.Smtp.Session.{
  status, closed, auth_error, failed, quit, say, submitted, start_tls, login, answered,
  xoauth2_body, connect, session, auth, exit_code, xoauth2_token, Server, send_proof,
}
use postfix_m365_relay.Smtp.Probe.{
  send_one, send_all, access_token, with_token, with_files, granted, ProbeArguments, probe,
}
use postfix_m365_relay.Smtp.Qualify.{
  logged_in, qualify_body, expect_auth_rejected, verdict, is_valid, QualifyArguments, qualify,
}
use postfix_m365_relay.Smtp.Verdict.{qualify-Secretive}
use postfix_m365_relay.Smtp.Secure.{probe-IsSecure, send_proof-IsSecure, keeps_secrets, IsSecure}
use postfix_m365_relay.Smtp.Initial.{read_initial-xoauth2_token, read_initial}
use postfix_m365_relay.Smtp.Shown.{qualify-shows, shows}

-- A server that accepts everything, and one that refuses every login.
abbrev kind : Server
kind (connect host port) log = answered 220
kind start_tls log = answered 220
kind (auth initial) log = answered 235
kind quit log = answered 221
kind _ log = answered 250

abbrev strict : Server
strict (auth initial) log = answered 535
strict (login name password) log = failed auth_error
strict call log = kind call log

abbrev with_password : QualifyArguments
with_password = record {
  host = codes "relay";
  port = 2525;
  sender = codes "a@example.com";
  recipient = codes "b@example.com";
  starttls = true;
  username = some (codes "device");
  password_file = some (some (codes "secret\n"));
  expect = expect_auth_rejected;
}

abbrev probing : ProbeArguments
probing = record {
  mailbox = codes "relay@example.com";
  sender = codes "a@example.com";
  recipient = codes "b@example.com";
  dry_run = false;
  key_file = some (codes "key");
  cert_file = some (codes "cert");
}

proof_sent_to_kind :
    (send_proof kind
      (codes "smtp")
      587
      (codes "a@example.com")
      (codes "t")
      (codes "b@example.com")
      []).0
    ≡ true
unfolding send_proof session xoauth2_body submitted say closed
proof_sent_to_kind = refl

proof_refused_by_strict :
    (send_proof strict
      (codes "smtp")
      587
      (codes "a@example.com")
      (codes "t")
      (codes "b@example.com")
      []).0
    ≡ false
unfolding send_proof session xoauth2_body submitted say closed
proof_refused_by_strict = refl

send_proof-IsSecure_example :
    IsSecure
      (send_proof kind
        (codes "smtp")
        587
        (codes "a@example.com")
        (codes "t")
        (codes "b@example.com")
        []).1
send_proof-IsSecure_example =
    send_proof-IsSecure kind (codes "smtp") 587 (codes "a@example.com") (codes "t")
      (codes "b@example.com") [] (refl, refl)

-- Both messages are sent; none where the token endpoint gives no token.
probe_done : (probe kind probing (granted (some (codes "t"))) []).0 ≡ status 0
unfolding probe with_files with_token access_token send_all send_one session xoauth2_body submitted
    say closed
probe_done = refl

probe-IsSecure_example :
    IsSecure (probe kind probing (granted (some (codes "t"))) []).1
    × (probing.dry_run ≡ true → (probe kind probing (granted (some (codes "t"))) []).1 ≡ [])
probe-IsSecure_example = probe-IsSecure kind probing (granted (some (codes "t"))) [] (refl, refl)

refusal_expected : (qualify strict with_password []).0 ≡ status 0
unfolding qualify is_valid verdict session qualify_body logged_in say closed
refusal_expected = refl

refused_login : exit_code (qualify strict with_password []).0 ≡ 0
unfolding refusal_expected
refused_login = refl

qualify-shows_example :
    any (shows with_password expect_auth_rejected) (qualify strict with_password []).1 ≡ true
qualify-shows_example = qualify-shows strict with_password refused_login

qualify-Secretive_example : keeps_secrets (qualify strict with_password []).1 ≡ true
qualify-Secretive_example = qualify-Secretive strict with_password [] refl

read_initial-xoauth2_token_example :
    read_initial (xoauth2_token (codes "relay@example.com") (codes "eyJ0"))
    ≡ some (codes "relay@example.com", codes "eyJ0")
read_initial-xoauth2_token_example =
    read_initial-xoauth2_token (codes "relay@example.com") (codes "eyJ0") refl refl refl refl
