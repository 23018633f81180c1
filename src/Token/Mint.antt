-- ===== src/Token/Mint.antt =====
-- `client_assertion`, `request_token` and `main` of scripts/refresh-smtp-token.py, from the environment and
-- the credential files to the token file.
use postfix_m365_relay.Base.{
  neg_part, pos_part, ℤ, ◌≤◌, [], ◌-◌, ◌+◌, true, none, ◌++◌, ◌∷◌, false, ◌≡◌, Bool, some, codes,
  Text, List, Option, ℕ,
}
use postfix_m365_relay.Token.Refresh.{Call, token_json, refresh, Disk, World, Arguments}
use postfix_m365_relay.Environment.{lookup, all_given, Env}
use postfix_m365_relay.Machine.Files.{Pair}
use postfix_m365_relay.Machine.Types.{Assertion}
use postfix_m365_relay.Credential.Thumbprint.{or_empty}

-- `client_assertion(tenant, client_id, key_pem, cert_pem)`, at a time in seconds
unfoldable pub client_assertion : Text → Text → Pair → ℕ → Assertion
client_assertion tenant client_id pair now = record {
  x5t = pair.cert.digest;
  key = pair.key;
  claims = record {
    aud = codes "https://login.microsoftonline.com/" ++ (tenant ++ codes "/oauth2/v2.0/token");
    iss = client_id;
    sub = some client_id;
    nbf = now - 60;
    exp = now + 600;
  };
}

-- `payload.get("expires_in", 3600)`, to be read by `int`; a number is not negative.
pub data Expiry : Type 0 where
  missing : Expiry
  lasts : ℕ → Expiry
  no_number : Expiry

-- What the token endpoint answers: a JSON object, an HTTPError, or another failure.
pub data MintAnswer : Type 0 where
  payload : Option Text → Expiry → MintAnswer
  http_refused unreachable : MintAnswer

abbrev pub seconds_of : Expiry → Option ℕ
seconds_of missing = some 3600
seconds_of (lasts n) = some n
seconds_of no_number = none

abbrev pub with_expiry : Text → Option ℕ → Option (Text × ℕ)
with_expiry token none = none
with_expiry token (some n) = some (token, n)

-- `request_token`; none is the SystemExit or the exception that ends the run with status 1.
unfoldable pub request_token : MintAnswer → Option (Text × ℕ)
request_token (payload none expiry) = none
request_token (payload (some []) expiry) = none
request_token (payload (some (c ∷ token)) expiry) = with_expiry (c ∷ token) (seconds_of expiry)
request_token http_refused = none
request_token unreachable = none

-- What one run finds; the environment is the file with the process environment laid over it. The pair is none where a file is missing, and unreadable where it is `some none`.
pub record Deployment : Type 0 where
  pub env : Env
  pub pair : Option (Option Pair)
  pub min_remaining : ℤ
  pub no_chown : Bool
  pub group_found : Bool
  pub now : ℕ
  pub signed_at : ℕ
  pub later : ℕ
  pub endpoint : Assertion → MintAnswer
  pub fails : Call → Bool

abbrev pub token_names : List Text
token_names = codes "MAIL_RELAY_TENANT" ∷ codes "MAIL_RELAY_CLIENT_ID" ∷ []

module _ (d : Deployment) where
  -- `env["MAIL_RELAY_TENANT"]` and `env["MAIL_RELAY_CLIENT_ID"]`, which are there once they are given
  abbrev pub own_assertion : Pair → Assertion
  own_assertion pair =
      client_assertion (or_empty (lookup (codes "MAIL_RELAY_TENANT") d.env))
        (or_empty (lookup (codes "MAIL_RELAY_CLIENT_ID") d.env)) pair d.signed_at

  unfoldable pub mint_with : Option (Option Pair) → Option (Text × ℕ)
  mint_with none = none
  mint_with (some none) = none
  mint_with (some (some pair)) = request_token (d.endpoint (own_assertion pair))

  abbrev pub is_found : Option (Option Pair) → Bool
  is_found none = false
  is_found (some pair) = true

  abbrev pub world_of : World
  world_of = record { now = d.now; later = d.later; mint = mint_with d.pair; fails = d.fails }

  abbrev pub arguments_of : Arguments
  arguments_of = record {
    configured = all_given token_names d.env;
    min_remaining = d.min_remaining;
    pair_there = is_found d.pair;
    no_chown = d.no_chown;
    group_found = d.group_found;
  }

  unfoldable pub refresh_main : Disk → ℕ × Disk
  unfolding mint_with
  refresh_main disk = refresh world_of arguments_of disk

  -- An assertion of the tenant and the client of the environment, signed with the pair, for ten minutes.
  pub record IsOwn (pair : Pair) (assertion : Assertion) : Type 0 where
    pub signed : assertion.key ≡ pair.key
    pub shown : assertion.x5t ≡ pair.cert.digest
    pub issuer : assertion.claims.iss ≡ or_empty (lookup (codes "MAIL_RELAY_CLIENT_ID") d.env)
    pub subject :
        assertion.claims.sub ≡ some (or_empty (lookup (codes "MAIL_RELAY_CLIENT_ID") d.env))
    pub audience :
        assertion.claims.aud
        ≡ codes "https://login.microsoftonline.com/"
          ++ (or_empty (lookup (codes "MAIL_RELAY_TENANT") d.env) ++ codes "/oauth2/v2.0/token")
    pub from : assertion.claims.nbf ≡ d.signed_at - 60
    pub until : assertion.claims.exp ≡ d.signed_at + 600

  -- How a run can end.
  pub data IsRun (disk : Disk) (r : ℕ × Disk) : Type 0 where
    run_failed : r.0 ≡ 1 → r.1.live ≡ disk.live → IsRun disk r
    still_good :
        {token : Text} {expiry : ℕ}
        → r.0 ≡ 0
        → r.1 ≡ disk
        → disk.live ≡ some (token_json token expiry)
        → d.now + pos_part d.min_remaining ≤ expiry + neg_part d.min_remaining
        → IsRun disk r
    renewed :
        {pair : Pair} {assertion : Assertion} {token : Text} {expiry : Expiry} {n : ℕ}
        → r.0 ≡ 0
        → d.pair ≡ some (some pair)
        → IsOwn pair assertion
        → d.endpoint assertion ≡ payload (some token) expiry
        → seconds_of expiry ≡ some n
        → r.1.live ≡ some (token_json token (d.later + n))
        → IsRun disk r

-- The answer behind a token.
pub record IsGranted (answer : MintAnswer) (token : Text) (n : ℕ) : Type 0 where
  pub expiry : Expiry
  pub granted : answer ≡ payload (some token) expiry
  pub seconds : seconds_of expiry ≡ some n
