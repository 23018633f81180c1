-- ===== src/Tests/JsonRuns.antt =====
-- The publication of a record on a full disk, and where the temporary file cannot be moved.
use postfix_m365_relay.Base.{[], none, ◌∷◌, false, true, Bool, ◌≡◌, some, refl, ℕ}
use postfix_m365_relay.Alert.Json.{
  dump_json, replace_path, Folder, JsonCall, whole, partial, atomic_json, finished, put_in_place,
}
use postfix_m365_relay.Alert.Published.{IsPublished, atomic_json-IsPublished}

abbrev disk_full : JsonCall → Bool
disk_full dump_json = true
disk_full _ = false

abbrev unmovable : JsonCall → Bool
unmovable replace_path = true
unmovable _ = false

abbrev first_record : Folder ℕ
first_record = record { path = some (whole 1); temporary = none }

full_run :
    ((atomic_json disk_full 2 first_record).returned ≡ false)
    × ((atomic_json disk_full 2 first_record).now ≡ first_record)
    × ((atomic_json (λ call. false) 2 first_record).now
        ≡ record first_record { path = some (whole 2) })
unfolding atomic_json finished put_in_place
full_run = (refl, refl, refl)

unmovable_run :
    (atomic_json unmovable 2 first_record).seen
    ≡ record first_record { temporary = some (whole 2) }
      ∷ record first_record { temporary = some partial }
      ∷ first_record
      ∷ []
unfolding full_run
unmovable_run = refl

atomic_json-IsPublished_example :
    IsPublished (some (whole 1)) 2 (atomic_json disk_full 2 first_record)
atomic_json-IsPublished_example = atomic_json-IsPublished disk_full 2 first_record
