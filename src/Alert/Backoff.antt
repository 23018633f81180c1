-- ===== src/Alert/Backoff.antt =====
-- How long a channel waits after a failure.
use postfix_m365_relay.Base.{zero, suc, ◌*◌, ◌-◌, arith, ◌≡◌, ◌^◌, ◌+◌, ◌≤◌, refl, ℕ}
use postfix_m365_relay.Alert.Outbox.{min, backoff}

pow_mono : (m n : ℕ) → m ≤ n → 2 ^ m ≤ 2 ^ n
pow_mono zero zero h = omega arith
pow_mono zero (suc n) h = omega (arith, pow_mono zero n (omega arith))
pow_mono (suc m) zero h = absurd (omega arith)
pow_mono (suc m) (suc n) h = omega (arith, pow_mono m n (omega arith))

min_mono : (a b k : ℕ) → a ≤ b → min a k ≤ min b k
min_mono a b k h = ground arith

min_mono_right : (k a b : ℕ) → a ≤ b → min k a ≤ min k b
min_mono_right k a b h = ground arith

-- After any number of failures the wait is 30 seconds at least and an hour at most; it is never shorter
-- than after fewer failures; and from the eighth failure on it is the hour.
pub backoff-bounds :
    (a b : ℕ)
    → a ≤ b
    → (30 ≤ backoff a) × (backoff a ≤ backoff b) × (backoff b ≤ 3600) × (backoff (8 + a) ≡ 3600)
unfolding backoff
backoff-bounds a b h =
    let low = pow_mono 0 (min (a - 1) 7) (omega arith) in
    let steps =
      pow_mono (min (a - 1) 7) (min (b - 1) 7) (min_mono (a - 1) (b - 1) 7 (omega arith)) in
    let top : min (8 + a - 1) 7 ≡ 7 = ground arith in
    (
      ground (arith, low),
      min_mono_right 3600 (30 * 2 ^ min (a - 1) 7) (30 * 2 ^ min (b - 1) 7) (omega arith),
      ground arith,
      rw top refl,
    )
