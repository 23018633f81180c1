-- ===== src/Tests/TokenRuns.antt =====
-- A refresh on a full disk, and one that succeeds.
use postfix_m365_relay.Base.{pos, [], ◌∷◌, ◌≡◌, codes, Bool, refl, true, false, none, some}
use postfix_m365_relay.Token.Refresh.{
  write_staging, write_token_file, token_json, refresh, Arguments, World, Disk, Call,
}
use postfix_m365_relay.Token.Mint.{
  missing, payload, request_token, mint_with, Deployment, refresh_main,
}
use postfix_m365_relay.Tests.Fixture.{old_pair}
use postfix_m365_relay.Environment.{all_given}

abbrev is_write : Call → Bool
is_write write_staging = true
is_write _ = false

abbrev full : World
full = record { now = 1000; later = 1001; mint = some (codes "new", 3600); fails = is_write }

abbrev working : World
working = record full { fails = λ call. false }

abbrev usual : Arguments
usual = record {
  configured = true;
  min_remaining = pos 900;
  pair_there = true;
  no_chown = false;
  group_found = true;
}

abbrev ending : Disk
ending = record { live = some (token_json (codes "old") 1100); staging = none }

refreshed_run :
    refresh working usual ending
    ≡ (0, record { live = some (token_json (codes "new") 4601); staging = none })
unfolding refresh write_token_file
refreshed_run = refl

-- The endpoint grants a token without its expiry.
abbrev deployed : Deployment
deployed = record {
  env =
      (codes "MAIL_RELAY_TENANT", codes "tenant-a")
      ∷ (codes "MAIL_RELAY_CLIENT_ID", codes "client-a")
      ∷ [];
  pair = some (some old_pair);
  min_remaining = pos 900;
  no_chown = false;
  group_found = true;
  now = 1000;
  signed_at = 1000;
  later = 1001;
  endpoint = λ assertion. payload (some (codes "new")) missing;
  fails = λ call. false;
}

hourly_run :
    refresh_main deployed ending
    ≡ (0, record { live = some (token_json (codes "new") 4601); staging = none })
unfolding refresh_main refresh write_token_file mint_with request_token all_given
hourly_run = refl
