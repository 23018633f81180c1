-- ===== src/Environment/RoundTrip.antt =====
-- An environment file that is printed is read back.
use postfix_m365_relay.Base.{
  ◌∙◌, ap, ℕ, arith, some, [], ◌∷◌, ◌++◌, ◌==◌, ◌&&◌, false, not, true, ◌≡◌, Bool, all, Text, List,
  refl,
}
use postfix_m365_relay.Credential.Ascii.{strip, is_space, lstrip}
use postfix_m365_relay.Environment.{
  put_entry, set, Env, update_env, read_env, entry_of, read_lines, is_break, split_equals,
  splitlines,
}
use postfix_m365_relay.Credential.Ascii.{rstrip}

-- A text that `strip` leaves alone.
abbrev pub opens : Text → Bool
opens [] = true
opens (c ∷ s) = not (is_space c)

abbrev pub closes : Text → Bool
closes [] = true
closes (c ∷ []) = not (is_space c)
closes (c ∷ d ∷ s) = closes (d ∷ s)

-- What can be printed: a name that is neither empty nor a comment and has no equals sign; and both
-- texts on one line, without white space around them.
abbrev pub is_name : Text → Bool
is_name [] = false
is_name (c ∷ s) = not (c == b'#') && all (λ d. not (d == b'=')) (c ∷ s)

abbrev pub one_line : Text → Bool
one_line t = opens t && closes t && all (λ c. not (is_break c)) t

abbrev pub is_printable : Text × Text → Bool
is_printable (key, value) = is_name key && one_line key && one_line value

unfoldable pub print_env : List (Text × Text) → Text
print_env [] = []
print_env ((key, value) ∷ entries) = key ++ (b'=' ∷ (value ++ (10 ∷ print_env entries)))

lstrip-opens : (t : Text) → opens t ≡ true → lstrip t ≡ t
unfolding lstrip
lstrip-opens [] h = refl
lstrip-opens (c ∷ s) h = ground arith

rstrip-closes : (t : Text) → closes t ≡ true → rstrip t ≡ t
unfolding rstrip
rstrip-closes [] h = refl
rstrip-closes (c ∷ []) h = ground arith
rstrip-closes (c ∷ d ∷ s) h = let ih = rstrip-closes (d ∷ s) h in rw ih refl

pub strip-clean : (t : Text) → opens t ≡ true → closes t ≡ true → strip t ≡ t
unfolding strip
strip-clean t h k = rw (lstrip-opens t h) (rstrip-closes t k)

closes-equals : (s v : Text) → closes v ≡ true → closes (s ++ (b'=' ∷ v)) ≡ true
unfolding is_space
closes-equals [] [] h = refl
closes-equals [] (c ∷ v) h = h
closes-equals (c ∷ []) v h = closes-equals [] v h
closes-equals (c ∷ d ∷ s) v h = closes-equals (d ∷ s) v h

split-equals :
    (key value : Text)
    → all (λ d. not (d == b'=')) key ≡ true
    → split_equals (key ++ (b'=' ∷ value)) ≡ some (key, value)
unfolding split_equals
split-equals [] value h = refl
split-equals (c ∷ key) value h =
    let first : (c == b'=') ≡ false = ground arith in
    let rest : all (λ d. not (d == b'=')) key ≡ true = ground arith in
    rw (first, split-equals key value rest) refl

split-line :
    (line rest : Text)
    → all (λ c. not (is_break c)) line ≡ true
    → splitlines (line ++ (10 ∷ rest)) ≡ line ∷ splitlines rest
unfolding splitlines is_break
split-line [] rest h = refl
split-line (c ∷ line) rest h =
    let first : is_break c ≡ false = ground arith in
    let others : all (λ d. not (is_break d)) line ≡ true = ground arith in
    rw (first, split-line line rest others) refl

all_append : (p : ℕ → Bool) (s t : Text) → all p s ≡ true → all p t ≡ true → all p (s ++ t) ≡ true
all_append p [] t h k = k
all_append p (c ∷ s) t h k = ground (arith, all_append p s t)

-- The line of one entry, as it is read.
entry_of-printed :
    (key value : Text)
    → is_printable (key, value) ≡ true
    → entry_of (strip (key ++ (b'=' ∷ value))) ≡ some (key, value)
unfolding entry_of
entry_of-printed [] value h = absurd (cc h)
entry_of-printed (c ∷ key) value h =
    let comment : (c == b'#') ≡ false = ground arith in
    let name : all (λ d. not (d == b'=')) (c ∷ key) ≡ true = ground arith in
    let first : opens (c ∷ key) ≡ true = ground arith in
    let last : closes (c ∷ key) ≡ true = ground arith in
    let first_value : opens value ≡ true = ground arith in
    let last_value : closes value ≡ true = ground arith in
    let line =
      strip-clean ((c ∷ key) ++ (b'=' ∷ value)) first (closes-equals (c ∷ key) value last_value) in
    rw
      (
        line,
        comment,
        split-equals (c ∷ key) value name,
        strip-clean (c ∷ key) first last,
        strip-clean value first_value last_value,
      )
      refl

line-unbroken :
    (key value : Text)
    → is_printable (key, value) ≡ true
    → all (λ c. not (is_break c)) (key ++ (b'=' ∷ value)) ≡ true
unfolding is_break
line-unbroken key value h = all_append _ key (b'=' ∷ value) (ground arith) (ground arith)

regroup :
    (key value rest : Text)
    → (key ++ (b'=' ∷ (value ++ (10 ∷ rest)))) ≡ ((key ++ (b'=' ∷ value)) ++ (10 ∷ rest))
regroup [] value rest = refl
regroup (c ∷ key) value rest = ap (λ t. c ∷ t) (regroup key value rest)

-- Every line of the file is a line of one entry, and the entries are set in their order.
read_lines-printed :
    (entries : List (Text × Text)) (env : Env)
    → all is_printable entries ≡ true
    → read_lines (splitlines (print_env entries)) env ≡ update_env env entries
unfolding read_lines splitlines print_env update_env
read_lines-printed [] env h = refl
read_lines-printed ((key, value) ∷ entries) env h =
    let first : is_printable (key, value) ≡ true = ground arith in
    let others : all is_printable entries ≡ true = ground arith in
    let line =
      split-line (key ++ (b'=' ∷ value)) (print_env entries) (line-unbroken key value first) in
    ap (λ t. read_lines (splitlines t) env) (regroup key value (print_env entries))
    ∙ (ap (λ t. read_lines t env) line
        ∙ (ap (λ e. read_lines (splitlines (print_env entries)) (put_entry e env))
              (entry_of-printed key value first)
            ∙ read_lines-printed entries (set key value env) others))

-- Entries whose names and values fit on a line are read back from the file that lists them, and where a
-- name stands twice, the later entry counts.
pub read_env-print :
    (entries : List (Text × Text))
    → all is_printable entries ≡ true
    → read_env (some (print_env entries)) ≡ update_env [] entries
unfolding read_env
read_env-print entries h = read_lines-printed entries [] h
