-- ===== src/Alert/Json.antt =====
-- `atomic_json` and `read_json` of scripts/alert-event.py: the file of a record and its temporary file, as
-- another process sees them between any two calls.
use postfix_m365_relay.Base.{◌∷◌, true, [], false, none, if◌then◌else◌, some, List, Option, Bool}

-- What a file has: a record, or what cannot be read as one.
pub data Content {ℓ} (A : Type ℓ) : Type ℓ where
  whole : A → Content A
  partial : Content A

pub record Folder {ℓ} (A : Type ℓ) : Type ℓ where
  pub path : Option (Content A)
  pub temporary : Option (Content A)

-- The calls of the operating system that can fail.
pub data JsonCall : Type 0 where
  make_folder open_temporary dump_json sync_temporary replace_path unlink_temporary : JsonCall

-- What the folder was at each moment, newest first, and whether the function returned; it raises where it
-- did not.
pub record Published {ℓ} (A : Type ℓ) : Type ℓ where
  pub returned : Bool
  pub now : Folder A
  pub seen : List (Folder A)

module _ {ℓ} {A : Type ℓ} where
  unfoldable pub read_json : Option (Content A) → Option A
  read_json none = none
  read_json (some partial) = none
  read_json (some (whole value)) = some value

  module _ (fails : JsonCall → Bool) where
    -- The `finally`, where the block before it ended with or without an exception: it passes over a
    -- temporary file that is not there.
    abbrev pub on_temporary : Bool → Folder A → List (Folder A) → Option (Content A) → Published A
    on_temporary ok folder seen none = record { returned = ok; now = folder; seen = seen }
    on_temporary ok folder seen (some t) =
        if fails unlink_temporary
        then record { returned = false; now = folder; seen = seen }
        else record {
          returned = ok;
          now = record folder { temporary = none };
          seen = folder ∷ seen;
        }

    unfoldable pub finished : Bool → Folder A → List (Folder A) → Published A
    finished ok folder seen = on_temporary ok folder seen folder.temporary

    -- `os.replace(temporary, path)`
    unfoldable pub put_in_place : A → Folder A → List (Folder A) → Published A
    unfolding finished
    put_in_place value folder seen =
        if fails replace_path
        then finished false folder seen
        else finished true (record { path = some (whole value); temporary = none }) (folder ∷ seen)

    unfoldable pub atomic_json : A → Folder A → Published A
    unfolding put_in_place finished
    atomic_json value folder =
        let opened : Folder A = record folder { temporary = some partial } in
        let dumped : Folder A = record folder { temporary = some (whole value) } in
        if fails make_folder
        then record { returned = false; now = folder; seen = [] }
        else if fails open_temporary
        then record { returned = false; now = folder; seen = [] }
        else if fails dump_json
        then finished false opened (folder ∷ [])
        else if fails sync_temporary
        then finished false dumped (opened ∷ folder ∷ [])
        else put_in_place value dumped (opened ∷ folder ∷ [])
