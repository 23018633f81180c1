-- ===== src/Credential/Ascii.antt =====
-- Python's text methods, on ASCII code points: `strip`, `replace`, `upper`, `lower` and the hex
-- digits that `bytes.hex` writes.
use postfix_m365_relay.Base.{
  ℕ, ◌+◌, ◌-◌, ◌/◌, ◌%◌, ◌≡◌, Bool, true, false, not, ◌&&◌, ◌||◌, List, [], ◌∷◌, map, arith, ltb,
  leb, ◌==◌, if◌then◌else◌, Text, keep,
}

abbrev pub within : ℕ → ℕ → ℕ → Bool
within lo hi c = leb lo c && leb c hi

-- What `str.strip` takes for white space.
unfoldable pub is_space : ℕ → Bool
is_space c = within 9 13 c || within 28 32 c || c == 133 || c == 160

unfoldable pub lstrip : Text → Text
lstrip [] = []
lstrip (c ∷ s) = if is_space c then lstrip s else c ∷ s

unfoldable pub rstrip : Text → Text
rstrip [] = []
rstrip (c ∷ s) = elim (rstrip s) [ [] ↦ if is_space c then [] else c ∷ [] | d ∷ t ↦ c ∷ d ∷ t ]

unfoldable pub strip : Text → Text
unfolding lstrip rstrip
strip s = rstrip (lstrip s)

unfoldable pub upper_char : ℕ → ℕ
upper_char c = if within b'a' b'z' c then c - 32 else c

unfoldable pub lower_char : ℕ → ℕ
lower_char c = if within b'A' b'Z' c then c + 32 else c

abbrev pub upper : Text → Text
upper = map upper_char

abbrev pub lower : Text → Text
lower = map lower_char

-- `s.replace(":", "")`
abbrev pub drop_colons : Text → Text
drop_colons = keep (λ c. not (c == b':'))

-- `c in "0123456789ABCDEF"`
unfoldable pub is_hex : ℕ → Bool
is_hex c = within b'0' b'9' c || within b'A' b'F' c

hex_digit : ℕ → ℕ
hex_digit d = if ltb d 10 then d + b'0' else d + 55

-- `raw.hex().upper()`
unfoldable pub hex_of : List ℕ → Text
unfolding hex_digit
hex_of [] = []
hex_of (b ∷ bs) = hex_digit (b / 16) ∷ hex_digit (b % 16) ∷ hex_of bs

-- No hex digit is white space, a colon or a small letter.
pub is_hex-plain :
    (c : ℕ) → is_hex c ≡ true → (is_space c ≡ false) × ((c == b':') ≡ false) × (upper_char c ≡ c)
unfolding is_hex is_space upper_char
is_hex-plain c h = ground arith

pub is_hex-upper_lower : (c : ℕ) → is_hex c ≡ true → upper_char (lower_char c) ≡ c
unfolding is_hex upper_char lower_char
is_hex-upper_lower c h = ground arith

pub is_space-colon_lower : (c : ℕ) → is_hex c ≡ true → is_space (lower_char c) ≡ false
unfolding is_hex lower_char is_space
is_space-colon_lower c h = ground arith

pub colon-lower : (c : ℕ) → is_hex c ≡ true → (lower_char c == b':') ≡ false
unfolding is_hex lower_char
colon-lower c h = ground arith
