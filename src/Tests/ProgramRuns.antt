-- ===== src/Tests/ProgramRuns.antt =====
-- Runs of the whole program over the fixture, an environment file, and witnesses of the theorems on them.
use postfix_m365_relay.Base.{arith, ◌+◌, ◌≡◌, none, ◌∷◌, some, ◌≤◌, false, codes, true, [], refl}
use postfix_m365_relay.Program.{
  generate_only, is_oauth_path, main, can_start, Settings, CommandLine,
}
use postfix_m365_relay.Credential.Ascii.{rstrip, lstrip, strip, is_space}
use postfix_m365_relay.Program.Coherent.{IsCoherent}
use postfix_m365_relay.Program.Offline.{generate_only-Renewal, Renewal}
use postfix_m365_relay.Program.Reach.{live_pair, no_pair, then_main, Runs-IsCoherent, Runs}
use postfix_m365_relay.Program.Bounded.{main-bounded, requests, waited}
use postfix_m365_relay.Machine.Types.{live_key, ok, live_cert, Machine}
use postfix_m365_relay.Environment.{
  set, split_equals, update_env, entry_of, splitlines, read_lines, is_break, all_given, read_env,
}
use postfix_m365_relay.Tests.Fixture.{disk, settings, accepting}
use postfix_m365_relay.Environment.RoundTrip.{read_env-print, print_env}

abbrev start_state : Machine
start_state = record { history = []; files = disk; saved = none }

-- A command line with no flags.
abbrev plain_run : CommandLine
plain_run = record {
  wants_pair = false;
  reuse_key = false;
  paths = none;
  wants_reset = false;
  wants_recover = false;
  wants_list = false;
  remove_key_id = none;
}

abbrev relay_settings : Settings
relay_settings = record {
  env =
      (codes "MAIL_RELAY_TENANT", codes "tenant")
      ∷ (codes "MAIL_RELAY_CLIENT_ID", codes "client")
      ∷ (codes "MAIL_SEND_MAILBOX", codes "relay@example.com")
      ∷ [];
  key_path = codes "var" ∷ codes "secrets" ∷ codes "key.pem" ∷ [];
  cert_path = codes "var" ∷ codes "secrets" ∷ codes "cert.pem" ∷ [];
}

-- The first pair is generated, and then a rotation runs.
abbrev first_run : CommandLine
first_run = record plain_run { wants_pair = true; paths = some (live_key, live_cert) }

two_runs :
    Runs start_state
      (main accepting settings plain_run relay_settings
        (main accepting settings first_run relay_settings start_state).1).1
two_runs =
    then_main accepting settings plain_run relay_settings no_pair (λ slot h e. refl)
      (then_main accepting settings first_run relay_settings live_pair (λ slot h e. refl)
        Runs.start)

Runs-IsCoherent_example :
    IsCoherent
      (main accepting settings plain_run relay_settings
        (main accepting settings first_run relay_settings start_state).1).1
Runs-IsCoherent_example = Runs-IsCoherent start_state _ two_runs (refl, refl, refl)

main-bounded_example :
    (waited (main accepting settings plain_run relay_settings start_state).1
      ≤ 900 + waited start_state)
    × (requests (main accepting settings plain_run relay_settings start_state).1
        ≤ 89 + requests start_state)
main-bounded_example = main-bounded accepting settings plain_run relay_settings start_state

generate_only-Renewal_example :
    Renewal accepting settings live_cert
      (ok 1)
      start_state
      (generate_only accepting settings true (some (live_key, live_cert)) start_state)
generate_only-Renewal_example =
    generate_only-Renewal accepting settings live_key live_cert start_state (omega arith)
      (λ call h. refl)

relay_starts : can_start relay_settings ≡ true
unfolding can_start all_given is_oauth_path
relay_starts = refl

-- A comment and an empty line are skipped, and white space around a name and a value is removed.
file_read :
    read_env (some (codes "# relay\n\n A = 1 \nB=x=y\r\nA=2"))
    ≡ (codes "A", codes "2") ∷ (codes "B", codes "x=y") ∷ []
unfolding read_env read_lines splitlines is_break entry_of strip lstrip rstrip is_space split_equals
    set
file_read = refl

read_env-print_example :
    read_env (
      some (
        print_env
          ((codes "A", codes "1") ∷ (codes "B", codes "x = y") ∷ (codes "A", codes "") ∷ [])))
    ≡ update_env []
        ((codes "A", codes "1") ∷ (codes "B", codes "x = y") ∷ (codes "A", codes "") ∷ [])
unfolding is_space is_break
read_env-print_example =
    read_env-print
      ((codes "A", codes "1") ∷ (codes "B", codes "x = y") ∷ (codes "A", codes "") ∷ []) refl
