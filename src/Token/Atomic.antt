-- ===== src/Token/Atomic.antt =====
-- What `write_token_file` and `main` leave in the place of the token file.
use postfix_m365_relay.Base.{
  negsuc, pos, neg_part, pos_part, ℤ, zero, arith, suc, not, ◌&&◌, ◌≤◌, if◌then◌else◌, ◌+◌, Option,
  ◌≡◌, Bool, Text, refl, ℕ, true, false, none, some,
}
use postfix_m365_relay.Token.Refresh.{
  misshapen, breaks, remove_staging, is_good, refresh, TokenFile, status_of, on_mint, replace_live,
  change_group, write_staging, open_staging, make_directory, garbage, given_up, token_json, Disk,
  Arguments, write_token_file, World,
}

module _ (world : World) where
  -- What a write may leave: the old file and an error, or the new file whole.
  pub data IsWhole (token : Text) (expires_in : ℕ) (disk : Disk) : Option ℕ × Disk → Type 0 where
    kept :
        {r : Option ℕ × Disk}
        → r.0 ≡ none
        → r.1.live ≡ disk.live
        → (world.fails remove_staging ≡ false → r.1.staging ≡ none)
        → IsWhole token expires_in disk r
    written :
        {r : Option ℕ × Disk}
        → r.0 ≡ some (world.later + expires_in)
        → r.1.live ≡ some (token_json token (world.later + expires_in))
        → r.1.staging ≡ none
        → IsWhole token expires_in disk r

  -- Whichever call fails: the token file is the one that was there, or the new one with the expiry that
  -- the issuer gave; and no staging file is left, unless it cannot be removed.
  pub write_token_file-IsWhole :
      (token : Text) (expires_in : ℕ) (group : Bool) (disk : Disk)
      → IsWhole token expires_in disk (write_token_file world token expires_in group disk)
  unfolding write_token_file
  write_token_file-IsWhole token expires_in group disk =
      by_calls (world.fails make_directory) (world.fails open_staging) (world.fails write_staging)
        (group && world.fails change_group) (world.fails replace_live)
    where
      by_calls :
          (d o w g r : Bool)
          → let file = token_json token (world.later + expires_in) in
            let result : Option ℕ × Disk =
              (if d
                then given_up world disk
                else if o
                then given_up world disk
                else if w
                then given_up world (record disk { staging = some garbage })
                else if g
                then given_up world (record disk { staging = some file })
                else if r
                then given_up world (record disk { staging = some file })
                else (
                  some (world.later + expires_in),
                  record { live = some file; staging = none },
                )) in
            IsWhole token expires_in disk result
      by_calls true o w g r = kept refl refl (λ u. rw u refl)
      by_calls false true w g r = kept refl refl (λ u. rw u refl)
      by_calls false false true g r = kept refl refl (λ u. rw u refl)
      by_calls false false false true r = kept refl refl (λ u. rw u refl)
      by_calls false false false false true = kept refl refl (λ u. rw u refl)
      by_calls false false false false false = written refl refl refl

  -- What a run leaves: with status 0 a token that is good for as long as was asked, or a new one with the
  -- issuer's expiry; with any other status the file that was there.
  pub data IsRefreshed (args : Arguments) (disk : Disk) : ℕ × Disk → Type 0 where
    good :
        {r : ℕ × Disk} {token : Text} {expiry : ℕ}
        → r.0 ≡ 0
        → r.1 ≡ disk
        → disk.live ≡ some (token_json token expiry)
        → world.now + pos_part args.min_remaining ≤ expiry + neg_part args.min_remaining
        → IsRefreshed args disk r
    minted :
        {r : ℕ × Disk} {token : Text} {expires_in : ℕ}
        → r.0 ≡ 0
        → world.mint ≡ some (token, expires_in)
        → r.1.live ≡ some (token_json token (world.later + expires_in))
        → IsRefreshed args disk r
    failed : {r : ℕ × Disk} → r.0 ≡ 1 → r.1.live ≡ disk.live → IsRefreshed args disk r

  is_good-IsRefreshed :
      (args : Arguments) (disk : Disk) (min : ℤ) (file : Option TokenFile)
      → args.min_remaining ≡ min
      → disk.live ≡ file
      → is_good world min file ≡ true
      → IsRefreshed args disk (0, disk)
  is_good-IsRefreshed args disk (pos zero) file m f h = absurd (cc)
  is_good-IsRefreshed args disk (pos (suc min)) (some (token_json token expiry)) m f h =
      good refl refl f (rw m (ground (arith, h)))
  is_good-IsRefreshed args disk (pos (suc min)) (some garbage) m f h = absurd (cc)
  is_good-IsRefreshed args disk (pos (suc min)) (some misshapen) m f h = absurd (cc)
  is_good-IsRefreshed args disk (pos (suc min)) none m f h = absurd (cc)
  is_good-IsRefreshed args disk (negsuc min) (some (token_json token expiry)) m f h =
      good refl refl f (rw m (ground (arith, h)))
  is_good-IsRefreshed args disk (negsuc min) (some garbage) m f h = absurd (cc)
  is_good-IsRefreshed args disk (negsuc min) (some misshapen) m f h = absurd (cc)
  is_good-IsRefreshed args disk (negsuc min) none m f h = absurd (cc)

  whole-IsRefreshed :
      (args : Arguments) (disk : Disk) (token : Text) (expires_in : ℕ)
      → world.mint ≡ some (token, expires_in)
      → (r : Option ℕ × Disk) → IsWhole token expires_in disk r
      → IsRefreshed args disk (status_of world r)
  whole-IsRefreshed args disk token expires_in m (none, d) (kept a b c) = failed refl b
  whole-IsRefreshed args disk token expires_in m (none, d) (written a b c) = absurd (cc)
  whole-IsRefreshed args disk token expires_in m (some e, d) (kept a b c) = absurd (cc)
  whole-IsRefreshed args disk token expires_in m (some e, d) (written a b c) = minted refl m b

  on_mint-IsRefreshed :
      (args : Arguments) (group : Bool) (disk : Disk) (o : Option (Text × ℕ))
      → world.mint ≡ o
      → IsRefreshed args disk (on_mint world group o disk)
  unfolding on_mint
  on_mint-IsRefreshed args group disk none m = failed refl refl
  on_mint-IsRefreshed args group disk (some (token, expires_in)) m =
      whole-IsRefreshed args disk token expires_in m
        (write_token_file world token expires_in group disk)
        (write_token_file-IsWhole token expires_in group disk)

  -- Whatever fails: a run that ends with status 0 leaves a token file that is good for as long as was
  -- asked, or one with a new token and the issuer's expiry; any other run leaves the file that was there.
  pub refresh-IsRefreshed :
      (args : Arguments) (disk : Disk) → IsRefreshed args disk (refresh world args disk)
  unfolding refresh
  refresh-IsRefreshed args disk =
      by_tests args.configured (breaks world args.min_remaining disk.live)
        (is_good world args.min_remaining disk.live) refl args.pair_there
        (not args.no_chown && not args.group_found)
    where
      by_tests :
          (c broken g : Bool)
          → is_good world args.min_remaining disk.live ≡ g
          → (p n : Bool)
          → let result : ℕ × Disk =
              (if not c
                then (1, disk)
                else if broken
                then (1, disk)
                else if g
                then (0, disk)
                else if not p
                then (1, disk)
                else if n
                then (1, disk)
                else on_mint world (not args.no_chown) world.mint disk) in
            IsRefreshed args disk result
      by_tests false b g e p n = failed refl refl
      by_tests true true g e p n = failed refl refl
      by_tests true false true e p n =
          is_good-IsRefreshed args disk args.min_remaining disk.live refl refl e
      by_tests true false false e false n = failed refl refl
      by_tests true false false e true true = failed refl refl
      by_tests true false false e true false =
          on_mint-IsRefreshed args (not args.no_chown) disk world.mint refl
