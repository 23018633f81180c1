-- ===== src/Credential/Window.antt =====
-- `rotation_window_error` and the default of `--renew-at` (scripts/rotate-smtp-relay-cert.py).
use postfix_m365_relay.Base.{
  ◌/◌, ◌≡◌, ◌↔◌, not, ◌&&◌, Option, none, some, arith, if◌then◌else◌, ℤ, pos, negsuc, ltb_ℤ, ◌<ℤ◌,
}

-- The two refusals; their texts are not modelled. `fits` is the empty text.
pub data WindowError : Type 0 where
  fits validity_below_one renew_outside : WindowError

unfoldable pub rotation_window_error : ℤ → ℤ → WindowError
rotation_window_error validity renew_at =
    if ltb_ℤ validity (pos 1)
    then validity_below_one
    else if not (ltb_ℤ (pos 0) renew_at && ltb_ℤ renew_at validity)
    then renew_outside
    else fits

-- `x // 2`, which rounds down below zero too.
abbrev halve : ℤ → ℤ
halve (pos n) = pos (n / 2)
halve (negsuc n) = negsuc (n / 2)

-- `args.renew_at` after the default has been filled in.
unfoldable pub renew_threshold : Option ℤ → ℤ → ℤ
renew_threshold none validity = halve validity
renew_threshold (some given) validity = given

-- The window is accepted exactly if the renewal point lies strictly inside the certificate's life.
pub rotation_window_error-fits :
    (validity renew_at : ℤ)
    → (rotation_window_error validity renew_at ≡ fits)
      ↔ ((pos 0 <ℤ renew_at) × (renew_at <ℤ validity))
unfolding rotation_window_error
rotation_window_error-fits validity renew_at = ground arith

-- With the default threshold every certificate of two days or more is accepted, and no other.
pub default_window_fits :
    (validity : ℤ)
    → (rotation_window_error validity (renew_threshold none validity) ≡ fits) ↔ (pos 1 <ℤ validity)
unfolding rotation_window_error renew_threshold
default_window_fits (pos n) = ground arith
default_window_fits (negsuc n) = ground arith
