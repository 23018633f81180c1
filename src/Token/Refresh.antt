-- ===== src/Token/Refresh.antt =====
-- `write_token_file` and `main` of scripts/refresh-smtp-token.py. What is read from the environment is
-- given by its tests; times are seconds.
use postfix_m365_relay.Base.{
  negsuc, pos, ℤ, true, zero, leb, ◌+◌, ◌&&◌, suc, not, Option, Bool, Text, if◌then◌else◌, ℕ, false,
  none, some,
}

-- The token file. What cannot be read as JSON, or has an expiry that is text but no number, is garbage:
-- a ValueError; JSON that is no object, or has an expiry of another type, raises another exception, which
-- nothing catches.
pub data TokenFile : Type 0 where
  token_json : Text → ℕ → TokenFile
  garbage misshapen : TokenFile

pub record Disk : Type 0 where
  pub live : Option TokenFile
  pub staging : Option TokenFile

-- The calls of the operating system that can fail.
pub data Call : Type 0 where
  make_directory open_staging write_staging change_group replace_live remove_staging : Call

-- The clock, the token endpoint (none where it refuses, cannot be reached, or returns no token), and
-- which calls fail.
pub record World : Type 0 where
  pub now : ℕ
  pub later : ℕ
  pub mint : Option (Text × ℕ)
  pub fails : Call → Bool

pub record Arguments : Type 0 where
  pub configured : Bool
  pub min_remaining : ℤ
  pub pair_there : Bool
  pub no_chown : Bool
  pub group_found : Bool

module _ (world : World) where
  -- Where a call fails, the staging file is removed, if it can be, and the error is reported; none is that
  -- error.
  abbrev pub given_up : Disk → Option ℕ × Disk
  given_up disk =
      (none, record disk { staging = if world.fails remove_staging then disk.staging else none })

  abbrev pub replaced : TokenFile → ℕ → Disk → Option ℕ × Disk
  replaced file expiry disk =
      if world.fails replace_live
      then given_up disk
      else (some expiry, record { live = some file; staging = none })

  abbrev pub grouped : Bool → TokenFile → ℕ → Disk → Option ℕ × Disk
  grouped group file expiry disk =
      if group && world.fails change_group then given_up disk else replaced file expiry disk

  -- Opening truncates the staging file; a write that fails leaves what cannot be read.
  abbrev pub staged : Bool → TokenFile → ℕ → Disk → Option ℕ × Disk
  staged group file expiry disk =
      if world.fails write_staging
      then given_up (record disk { staging = some garbage })
      else grouped group file expiry (record disk { staging = some file })

  unfoldable pub write_token_file : Text → ℕ → Bool → Disk → Option ℕ × Disk
  write_token_file token expires_in group disk =
      let expiry = world.later + expires_in in
      if world.fails make_directory
      then given_up disk
      else if world.fails open_staging
      then given_up disk
      else staged group (token_json token expiry) expiry disk

  -- `--min-remaining`: is the token that is there good for so long?
  abbrev pub is_good : ℤ → Option TokenFile → Bool
  is_good (pos zero) file = false
  is_good (pos (suc min)) (some (token_json token expiry)) = leb (world.now + suc min) expiry
  is_good (negsuc min) (some (token_json token expiry)) = leb world.now (expiry + suc min)
  is_good _ _ = false

  -- Does the test end the run by an exception?
  abbrev pub breaks : ℤ → Option TokenFile → Bool
  breaks (pos (suc min)) (some misshapen) = true
  breaks (negsuc min) (some misshapen) = true
  breaks _ _ = false

  abbrev pub status_of : Option ℕ × Disk → ℕ × Disk
  status_of (none, disk) = (1, disk)
  status_of (some expiry, disk) = (0, disk)

  unfoldable pub on_mint : Bool → Option (Text × ℕ) → Disk → ℕ × Disk
  on_mint group none disk = (1, disk)
  on_mint group (some (token, expires_in)) disk =
      status_of (write_token_file token expires_in group disk)

  -- The exit status, and the disk.
  unfoldable pub refresh : Arguments → Disk → ℕ × Disk
  unfolding on_mint
  refresh args disk =
      if not args.configured
      then (1, disk)
      else if breaks args.min_remaining disk.live
      then (1, disk)
      else if is_good args.min_remaining disk.live
      then (0, disk)
      else if not args.pair_there
      then (1, disk)
      else if not args.no_chown && not args.group_found
      then (1, disk)
      else on_mint (not args.no_chown) world.mint disk
