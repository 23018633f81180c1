-- ===== src/Credential/Thumbprint.antt =====
-- `credential_thumbprint` (scripts/rotate-smtp-relay-cert.py): one spelling for the identifier of a
-- key credential, whichever of its encodings Graph answers with.
use postfix_m365_relay.Base.{
  ◌-◌, ◌%◌, ◌/◌, ltb, ℕ, ◌+◌, ◌*◌, ◌≤◌, ◌<◌, ◌≡◌, refl, Bool, true, false, not, ◌&&◌, Option, none,
  some, List, [], ◌∷◌, arith, ◌==◌, if◌then◌else◌, Text, length, all, length-keep, ==_iff,
}
use postfix_m365_relay.Credential.Ascii.{
  strip, lstrip, rstrip, is_space, upper, lower_char, drop_colons, is_hex, hex_of, is_hex-plain,
  is_hex-upper_lower, is_space-colon_lower, colon-lower,
}
use postfix_m365_relay.Credential.Base64.{b64encode, b64decode, b64decode-b64encode, AllBytes}

-- One element of `keyCredentials`; `none` is a field that is missing or null.
pub record Credential : Type 0 where
  pub key_id : Text
  pub custom_key_identifier : Option Text
  pub display_name : Option Text

-- `value or ""`
abbrev pub or_empty : Option Text → Text
or_empty none = []
or_empty (some t) = t

-- `candidate` of the source.
unfoldable pub normalised : Text → Text
normalised identifier = upper (drop_colons (strip identifier))

-- `base64.b64decode(identifier).hex().upper()`, or nothing where the decoder raises.
decoded : Text → Text
decoded identifier = elim (b64decode identifier) [ none ↦ [] | some raw ↦ hex_of raw ]

unfoldable pub thumbprint_of : Text → Text
unfolding normalised decoded
thumbprint_of identifier =
    let candidate = normalised identifier in
    if length candidate == 40 && all is_hex candidate then candidate else decoded identifier

unfoldable pub credential_thumbprint : Credential → Text
unfolding thumbprint_of
credential_thumbprint credential = thumbprint_of (or_empty credential.custom_key_identifier)

-- `Spells s t`: `s` writes the hex digits `t`, each capital or small, with colons anywhere.
pub data Spells : Text → Text → Type 0 where
  done : Spells [] []
  capital : {s t : Text} (c : ℕ) → is_hex c ≡ true → Spells s t → Spells (c ∷ s) (c ∷ t)
  small : {s t : Text} (c : ℕ) → is_hex c ≡ true → Spells s t → Spells (lower_char c ∷ s) (c ∷ t)
  colon : {s t : Text} → Spells s t → Spells (b':' ∷ s) t

Spells-upper : {s t : Text} → Spells s t → upper (drop_colons s) ≡ t
Spells-upper done = refl
Spells-upper (capital c h r) = ground (arith, is_hex-plain c h, Spells-upper r)
Spells-upper (small c h r) = ground (arith, colon-lower c h, is_hex-upper_lower c h, Spells-upper r)
Spells-upper (colon r) = Spells-upper r

Spells-is_hex : {s t : Text} → Spells s t → all is_hex t ≡ true
Spells-is_hex done = refl
Spells-is_hex (capital c h r) = rw (h) (Spells-is_hex r)
Spells-is_hex (small c h r) = rw (h) (Spells-is_hex r)
Spells-is_hex (colon r) = Spells-is_hex r

-- A text without white space is its own `strip`.
abbrev pub no_space : Text → Bool
no_space = all (λ c. not (is_space c))

colon-plain : is_space b':' ≡ false
unfolding is_space
colon-plain = refl

Spells-no_space : {s t : Text} → Spells s t → no_space s ≡ true
Spells-no_space done = refl
Spells-no_space (capital c h r) = ground (arith, is_hex-plain c h, Spells-no_space r)
Spells-no_space (small c h r) = ground (arith, is_space-colon_lower c h, Spells-no_space r)
Spells-no_space (colon r) = rw colon-plain (Spells-no_space r)

rstrip-no_space : (s : Text) → no_space s ≡ true → rstrip s ≡ s
unfolding rstrip
rstrip-no_space [] h = refl
rstrip-no_space (c ∷ s) h = ground (arith, rstrip-no_space s)

lstrip-no_space : (s : Text) → no_space s ≡ true → lstrip s ≡ s
unfolding lstrip
lstrip-no_space [] h = refl
lstrip-no_space (c ∷ s) h = ground arith

pub strip-no_space : (s : Text) → no_space s ≡ true → strip s ≡ s
unfolding strip
strip-no_space s h = rw (lstrip-no_space s h) (rstrip-no_space s h)

Spells-normalised : {s t : Text} → Spells s t → normalised s ≡ t
unfolding normalised
Spells-normalised {s} r = rw (strip-no_space s (Spells-no_space r)) (Spells-upper r)

-- A hex thumbprint is recognised in every spelling.
pub thumbprint_of-Spells : {s t : Text} → Spells s t → length t ≡ 40 → thumbprint_of s ≡ t
unfolding thumbprint_of
thumbprint_of-Spells {s} {t} r h =
    rw (Spells-normalised r) (rw (Spells-is_hex r) (ground (arith, ==_iff (length t) 40)))

length-rstrip : (s : Text) → length (rstrip s) ≤ length s
unfolding rstrip
length-rstrip [] = omega arith
length-rstrip (c ∷ s) = ground (arith, length-rstrip s)

length-lstrip : (s : Text) → length (lstrip s) ≤ length s
unfolding lstrip
length-lstrip [] = omega arith
length-lstrip (c ∷ s) = ground (arith, length-lstrip s)

length-upper : (s : Text) → length (upper s) ≡ length s
length-upper [] = refl
length-upper (c ∷ s) = omega (arith, length-upper s)

length-normalised : (s : Text) → length (normalised s) ≤ length s
unfolding normalised strip
length-normalised s = omega (
  arith,
  length-upper (drop_colons (strip s)),
  length-keep {0} {A = ℕ} (λ c. not (c == b':')) (strip s),
  length-rstrip (lstrip s),
  length-lstrip s,
)

length-b64encode : (bs : List ℕ) → 3 * length (b64encode bs) ≤ 4 * length bs + 8
unfolding b64encode
length-b64encode [] = omega arith
length-b64encode (a ∷ []) = omega arith
length-b64encode (a ∷ b ∷ []) = omega arith
length-b64encode (a ∷ b ∷ c ∷ rest) = omega (arith, length-b64encode rest)

short_code : (n : ℕ) → n < 40 → (n == 40) ≡ false
short_code n h = ground arith

-- The capital hex digit of a number below sixteen, and two of them for each byte.
abbrev pub capital_digit : ℕ → ℕ
capital_digit n = if ltb n 10 then b'0' + n else b'A' + (n - 10)

abbrev pub capital_hex : List ℕ → Text
capital_hex [] = []
capital_hex (b ∷ raw) = capital_digit (b / 16) ∷ capital_digit (b % 16) ∷ capital_hex raw

digit_capital : (n : ℕ) → (if ltb n 10 then n + b'0' else n + 55) ≡ capital_digit n
digit_capital n = ground arith

hex_of-capital : (raw : List ℕ) → hex_of raw ≡ capital_hex raw
unfolding hex_of
hex_of-capital [] = refl
hex_of-capital (b ∷ raw) =
    rw (digit_capital (b / 16), digit_capital (b % 16), hex_of-capital raw) refl

-- The documented encoding, base64 of the twenty bytes of the digest, gives two capital hex digits for
-- each byte of it, in order.
pub thumbprint_of-b64encode :
    (raw : List ℕ)
    → length raw ≡ 20
    → AllBytes raw
    → thumbprint_of (b64encode raw) ≡ capital_hex raw
unfolding thumbprint_of
thumbprint_of-b64encode raw h bytes =
    rw
      (short_code (length (normalised (b64encode raw)))
        (omega (arith, length-b64encode raw, length-normalised (b64encode raw))))
      (rw (b64decode-b64encode raw bytes, decoded) (hex_of-capital raw))
