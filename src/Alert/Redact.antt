-- ===== src/Alert/Redact.antt =====
-- `redact` of scripts/alert-event.py: its four substitutions, on ASCII text.
pub mod Bearer
pub mod Hidden
use postfix_m365_relay.Base.{
  false, keep, true, take, ◌++◌, ◌==◌, [], zero, ◌+◌, ◌&&◌, not, suc, ◌∷◌, none, begins, leb, some,
  ◌||◌, Text, Option, Bool, if◌then◌else◌, codes, refl, ℕ,
}
use postfix_m365_relay.Credential.Ascii.{is_space, lower_char, within}

-- What one regular expression matches at a position: the length of the group that is kept, and the
-- length of what is replaced. It looks at the character before, which is 0 at the beginning.
abbrev pub Matcher : Type 0
Matcher = ℕ → Text → Option (ℕ × ℕ)

-- `[^\s,;]`
unfoldable pub is_plain : ℕ → Bool
is_plain c = not (is_space c || c == b',' || c == b';')

-- The length of the longest beginning of such characters, and the text without so many.
abbrev pub run_of : (ℕ → Bool) → Text → ℕ
run_of p [] = 0
run_of p (c ∷ s) = if p c then suc (run_of p s) else 0

abbrev pub drop : ℕ → Text → Text
drop zero s = s
drop (suc n) [] = []
drop (suc n) (c ∷ s) = drop n s

-- The text behind a word in any case.
abbrev pub after_word : Text → Text → Option Text
after_word [] s = some s
after_word (w ∷ word) [] = none
after_word (w ∷ word) (c ∷ s) = if lower_char c == w then after_word word s else none

-- A secret of one character at least, behind a group of a length.
abbrev pub secret_behind : ℕ → ℕ → Option (ℕ × ℕ)
secret_behind kept zero = none
secret_behind kept (suc n) = some (kept, suc n)

abbrev pub spaced_secret : ℕ → ℕ → Text → Option (ℕ × ℕ)
spaced_secret letters zero rest = none
spaced_secret letters (suc n) rest =
    secret_behind (letters + suc n) (run_of is_plain (drop (suc n) rest))

abbrev pub behind_bearer : Option Text → Option (ℕ × ℕ)
behind_bearer none = none
behind_bearer (some rest) = spaced_secret 6 (run_of is_space rest) rest

-- `(?i)(bearer\s+)[^\s,;]+`
unfoldable pub match_bearer : Matcher
match_bearer before s = behind_bearer (after_word (codes "bearer") s)

-- `\s*[:=]\s*` and the secret, behind a word of a length
abbrev pub assigned : ℕ → Text → Option (ℕ × ℕ)
assigned kept [] = none
assigned kept (c ∷ s) =
    if c == b':' || c == b'='
    then secret_behind (kept + 1 + run_of is_space s) (run_of is_plain (drop (run_of is_space s) s))
    else none

abbrev pub behind_keyword : ℕ → Option Text → Option (ℕ × ℕ)
behind_keyword letters none = none
behind_keyword letters (some rest) =
    assigned (letters + run_of is_space rest) (drop (run_of is_space rest) rest)

abbrev pub or_match : Option (ℕ × ℕ) → Option (ℕ × ℕ) → Option (ℕ × ℕ)
or_match none other = other
or_match (some found) other = some found

-- `(?i)((?:access_token|client_assertion|client_secret|password)\s*[:=]\s*)[^\s,;]+`
unfoldable pub match_keyword : Matcher
match_keyword before s = or_match (behind_keyword 12 (after_word (codes "access_token") s)) (
    or_match (behind_keyword 16 (after_word (codes "client_assertion") s)) (
      or_match (behind_keyword 13 (after_word (codes "client_secret") s))
        (behind_keyword 8 (after_word (codes "password") s))))

-- `\w`, and `[A-Za-z0-9_-]`
unfoldable pub is_word : ℕ → Bool
is_word c = within b'A' b'Z' c || within b'a' b'z' c || within b'0' b'9' c || c == b'_'

unfoldable pub is_segment : ℕ → Bool
is_segment c = is_word c || c == b'-'

abbrev pub first_char : Text → ℕ
first_char [] = 0
first_char (c ∷ s) = c

-- `X{least,}\.`: the length of a segment with the dot behind it.
abbrev pub dotted : ℕ → ℕ → Text → Option ℕ
dotted least n rest = if leb least n && first_char rest == b'.' then some (suc n) else none

abbrev pub segment : ℕ → Text → Option ℕ
segment least s = dotted least (run_of is_segment s) (drop (run_of is_segment s) s)

-- The longest end of the last segment at which a word ends: `X{10,}\b`, of a run of a length.
abbrev pub boundary : Bool → Bool → Bool
boundary true b = not b
boundary false b = b

abbrev pub bounded_run : ℕ → Text → ℕ
bounded_run zero s = 0
bounded_run (suc n) s =
    if boundary (is_word (first_char (drop n s))) (is_word (first_char (drop (suc n) s)))
    then suc n
    else bounded_run n s

abbrev pub last_segment : ℕ → Text → Option (ℕ × ℕ)
last_segment before s =
    let n = bounded_run (run_of is_segment s) s in if leb 10 n then some (0, before + n) else none

abbrev pub third_segment : ℕ → Text → Option ℕ → Option (ℕ × ℕ)
third_segment before s none = none
third_segment before s (some n) = last_segment (before + n) (drop n s)

abbrev pub second_segment : ℕ → Text → Option ℕ → Option (ℕ × ℕ)
second_segment before s none = none
second_segment before s (some n) = third_segment (before + n) (drop n s) (segment 10 (drop n s))

-- `\beyJ[A-Za-z0-9_-]{20,}\.[A-Za-z0-9_-]{10,}\.[A-Za-z0-9_-]{10,}\b`
unfoldable pub match_jwt : Matcher
match_jwt before s =
    if not (is_word before) && begins (codes "eyJ") s
    then second_segment 3 (drop 3 s) (segment 20 (drop 3 s))
    else none

-- `-----BEGIN [^-]+-----` or the same with END: the length of the line.
abbrev pub label : ℕ → Text → Option ℕ
label before s =
    let n = run_of (λ c. not (c == b'-')) s in
    if leb 1 n && begins (codes "-----") (drop n s) then some (before + n + 5) else none

abbrev pub begin_line : Text → Option ℕ
begin_line s = if begins (codes "-----BEGIN ") s then label 11 (drop 11 s) else none

abbrev pub end_line : Text → Option ℕ
end_line s = if begins (codes "-----END ") s then label 9 (drop 9 s) else none

abbrev pub or_later : Option ℕ → Option ℕ → Option ℕ
or_later (some n) later = some n
or_later none none = none
or_later none (some n) = some (suc n)

-- `.*?-----END [^-]+-----`: the length up to the end of the first end line.
unfoldable pub to_end_line : Text → Option ℕ
to_end_line [] = none
to_end_line (c ∷ s) = or_later (end_line (c ∷ s)) (to_end_line s)

abbrev pub pem_of : Option ℕ → Text → Option (ℕ × ℕ)
pem_of none s = none
pem_of (some n) s = elim (to_end_line (drop n s)) [ none ↦ none | some m ↦ some (0, n + m) ]

-- `-----BEGIN [^-]+-----.*?-----END [^-]+-----`
unfoldable pub match_pem : Matcher
match_pem before s = pem_of (begin_line s) s

-- Where a substitution stands: outside of a match; so many characters before the part that is replaced;
-- or in it, with so many characters of it left after the next.
pub data Place : Type 0 where
  outside : Place
  keeping : ℕ → ℕ → Place
  hiding : ℕ → Place

abbrev pub rest_hidden : ℕ → Place
rest_hidden zero = outside
rest_hidden (suc n) = hiding n

abbrev pub place_of : Option (ℕ × ℕ) → Place
place_of none = outside
place_of (some (kept, hidden)) = keeping kept hidden

abbrev pub placed : Place → Option (ℕ × ℕ) → Place
placed outside found = place_of found
placed place found = place

-- `re.sub(pattern, r"\1" + marker, text)`: matches are found from the left and do not overlap.
module _ (matcher : Matcher) (marker : Text) where
  abbrev pub written : Place → ℕ → (Place → Text) → Text
  written outside c next = c ∷ next outside
  written (keeping zero zero) c next = c ∷ next outside
  written (keeping zero (suc hidden)) c next = marker ++ next (rest_hidden hidden)
  written (keeping (suc kept) hidden) c next = c ∷ next (keeping kept hidden)
  written (hiding n) c next = next (rest_hidden n)

  unfoldable pub substitute : ℕ → Place → Text → Text
  substitute before place [] = []
  substitute before place (c ∷ s) =
      written (placed place (matcher before (c ∷ s))) c (λ later. substitute c later s)

-- `value.replace("\x00", "")[:8000]`
unfoldable pub prepared : Text → Text
prepared value = take 8000 (keep (λ c. not (c == 0)) value)

unfoldable pub redact_bearer : Text → Text
redact_bearer text = substitute match_bearer (codes "[REDACTED]") 0 outside text

unfoldable pub redact_keywords : Text → Text
redact_keywords text = substitute match_keyword (codes "[REDACTED]") 0 outside text

unfoldable pub redact_jwts : Text → Text
redact_jwts text = substitute match_jwt (codes "[REDACTED-JWT]") 0 outside text

unfoldable pub redact_pems : Text → Text
redact_pems text = substitute match_pem (codes "[REDACTED-PEM]") 0 outside text

unfoldable pub redact : Text → Text
redact value = redact_pems (redact_jwts (redact_keywords (redact_bearer (prepared value))))
