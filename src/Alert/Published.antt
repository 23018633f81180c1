-- ===== src/Alert/Published.antt =====
-- No reader of a record sees a part of one.
use postfix_m365_relay.Base.{
  ◌∷◌, none, if◌then◌else◌, [], false, some, true, inl, refl, List, Option, Bool, ◌⊎◌, ◌≡◌,
}
use postfix_m365_relay.Alert.Json.{
  Content, whole, partial, Folder, JsonCall, make_folder, open_temporary, dump_json, sync_temporary,
  replace_path, unlink_temporary, Published, read_json, finished, put_in_place, atomic_json,
}

module _ {ℓ} {A : Type ℓ} (old : Option (Content A)) (value : A) where
  -- A reader finds the record that was there, or the new one.
  abbrev pub IsOldOrNew : Folder A → Type ℓ
  IsOldOrNew folder = (read_json folder.path ≡ read_json old) ⊎ (read_json folder.path ≡ some value)

  pub data Each : List (Folder A) → Type ℓ where
    no_more : Each []
    one_more :
        {folder : Folder A} {seen : List (Folder A)}
        → IsOldOrNew folder
        → Each seen
        → Each (folder ∷ seen)

  -- What a publication comes to.
  pub data IsPublished : Published A → Type ℓ where
    replaced :
        {p : Published A}
        → p.returned ≡ true
        → p.now.path ≡ some (whole value)
        → p.now.temporary ≡ none
        → Each p.seen
        → IsPublished p
    raised : {p : Published A} → p.returned ≡ false → p.now.path ≡ old → Each p.seen → IsPublished p

module _ {ℓ} {A : Type ℓ} (fails : JsonCall → Bool) (value : A) (folder : Folder A) where
  raised_with :
      (t : Content A) (seen : List (Folder A))
      → Each folder.path value seen
      → IsPublished folder.path value
          (finished fails false (record folder { temporary = some t }) seen)
  unfolding finished
  raised_with t seen h = by_flag (fails unlink_temporary)
    where
      by_flag :
          (b : Bool)
          → IsPublished folder.path value (
              if b
              then record {
                returned = false;
                now = record folder { temporary = some t };
                seen = seen;
              }
              else record {
                returned = false;
                now = record folder { temporary = none };
                seen = record folder { temporary = some t } ∷ seen;
              })
      by_flag true = raised refl refl h
      by_flag false = raised refl refl (one_more (inl refl) h)

  put_in_place-IsPublished :
      (t : Content A) (seen : List (Folder A))
      → Each folder.path value seen
      → IsPublished folder.path value
          (put_in_place fails value (record folder { temporary = some t }) seen)
  unfolding put_in_place finished
  put_in_place-IsPublished t seen h = by_flag (fails replace_path)
    where
      by_flag :
          (b : Bool)
          → IsPublished folder.path value (
              if b
              then finished fails false (record folder { temporary = some t }) seen
              else finished fails true
                  (record { path = some (whole value); temporary = none })
                  (record folder { temporary = some t } ∷ seen))
      by_flag true = raised_with t seen h
      by_flag false = replaced refl refl refl (one_more (inl refl) h)

-- Whatever call fails: between any two calls a reader of the file finds the record that was there or the
-- new one, never a part. Where the function returns, the new record is in place and no temporary file is
-- left; where it raises, the file is the one that was there.
pub atomic_json-IsPublished :
    {A : Type 0} (fails : JsonCall → Bool) (value : A) (folder : Folder A)
    → IsPublished folder.path value (atomic_json fails value folder)
unfolding atomic_json
atomic_json-IsPublished {A} fails value folder =
    by_calls (fails make_folder) (fails open_temporary) (fails dump_json) (fails sync_temporary)
  where
    opened : Folder A
    opened = record folder { temporary = some partial }

    dumped : Folder A
    dumped = record folder { temporary = some (whole value) }

    first : Each folder.path value (folder ∷ [])
    first = one_more (inl refl) no_more

    by_calls :
        (m o d s : Bool)
        → let p : Published A =
            (if m
              then record { returned = false; now = folder; seen = [] }
              else if o
              then record { returned = false; now = folder; seen = [] }
              else if d
              then finished fails false opened (folder ∷ [])
              else if s
              then finished fails false dumped (opened ∷ folder ∷ [])
              else put_in_place fails value dumped (opened ∷ folder ∷ [])) in
          IsPublished folder.path value p
    by_calls true o d s = raised refl refl no_more
    by_calls false true d s = raised refl refl no_more
    by_calls false false true s = raised_with fails value folder partial (folder ∷ []) first
    by_calls false false false true =
        raised_with fails value folder (whole value) (opened ∷ folder ∷ [])
          (one_more (inl refl) first)
    by_calls false false false false =
        put_in_place-IsPublished fails value folder (whole value) (opened ∷ folder ∷ [])
          (one_more (inl refl) first)
