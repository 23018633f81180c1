-- ===== src/Environment.antt =====
-- `read_env`, and the settings that `main` requires (scripts/rotate-smtp-relay-cert.py and
-- scripts/refresh-smtp-token.py, which have the same text).
pub mod RoundTrip
use postfix_m365_relay.Base.{
  codes, ◌==◌, same, if◌then◌else◌, not, ◌||◌, ◌∷◌, [], false, all, some, none, Option, List, Text,
  Bool, refl, ℕ,
}
use postfix_m365_relay.Credential.Ascii.{strip, within}

-- A dictionary of texts, with the first entry of a name in force.
abbrev pub Env : Type 0
Env = List (Text × Text)

abbrev pub lookup : Text → Env → Option Text
lookup name [] = none
lookup name ((key, value) ∷ env) = if same key name then some value else lookup name env

-- `env[name] = value`
unfoldable pub set : Text → Text → Env → Env
set name value [] = (name, value) ∷ []
set name value ((key, old) ∷ env) =
    if same key name then (key, value) ∷ env else (key, old) ∷ set name value env

-- `env.update(other)`
unfoldable pub update_env : Env → Env → Env
update_env env [] = env
update_env env ((key, value) ∷ other) = update_env (set key value env) other

-- Where `str.splitlines` ends a line.
unfoldable pub is_break : ℕ → Bool
is_break c = within 10 13 c || within 28 30 c || c == 133 || c == 8232 || c == 8233

abbrev pub into_first : ℕ → List Text → List Text
into_first c [] = (c ∷ []) ∷ []
into_first c (line ∷ lines) = (c ∷ line) ∷ lines

-- `text.splitlines()`; a carriage return before a line feed makes one more empty line here, which is
-- skipped as every empty line is.
unfoldable pub splitlines : Text → List Text
splitlines [] = []
splitlines (c ∷ s) = if is_break c then [] ∷ splitlines s else into_first c (splitlines s)

abbrev pub with_first : ℕ → Option (Text × Text) → Option (Text × Text)
with_first c none = none
with_first c (some (key, value)) = some (c ∷ key, value)

-- `line.split("=", 1)`, and none where `"=" in line` fails
unfoldable pub split_equals : Text → Option (Text × Text)
split_equals [] = none
split_equals (c ∷ s) = if c == b'=' then some ([], s) else with_first c (split_equals s)

abbrev pub stripped : Option (Text × Text) → Option (Text × Text)
stripped none = none
stripped (some (key, value)) = some (strip key, strip value)

-- A stripped line: none is an empty one, a comment, or one with no equals sign.
unfoldable pub entry_of : Text → Option (Text × Text)
entry_of [] = none
entry_of (c ∷ s) = if c == b'#' then none else stripped (split_equals (c ∷ s))

abbrev pub put_entry : Option (Text × Text) → Env → Env
put_entry none env = env
put_entry (some (key, value)) env = set key value env

unfoldable pub read_lines : List Text → Env → Env
read_lines [] env = env
read_lines (line ∷ lines) env = read_lines lines (put_entry (entry_of (strip line)) env)

-- The file is none where it is not there.
unfoldable pub read_env : Option Text → Env
read_env none = []
read_env (some text) = read_lines (splitlines text) []

-- `not env.get(required) or env[required] == "replace_me"`, negated
abbrev pub is_given : Option Text → Bool
is_given none = false
is_given (some []) = false
is_given (some value) = not (same value (codes "replace_me"))

unfoldable pub all_given : List Text → Env → Bool
all_given names env = all (λ name. is_given (lookup name env)) names
