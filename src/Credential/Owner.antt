-- ===== src/Credential/Owner.antt =====
-- Whose a key on the shared app registration is: the instance's identity, the stamp in `displayName`
-- and `classify_credential` (scripts/rotate-smtp-relay-cert.py).
pub mod Stamp
pub mod Verdict
use postfix_m365_relay.Base.{
  ℕ, suc, Bool, true, false, not, ◌&&◌, ◌||◌, Option, none, some, List, [], ◌∷◌, ◌++◌, map, leb,
  ◌==◌, if◌then◌else◌, Text, codes, same, begins, take,
}
use postfix_m365_relay.Credential.Ascii.{within, strip}
use postfix_m365_relay.Credential.Thumbprint.{Credential, or_empty, credential_thumbprint}

-- `[A-Za-z0-9._-]`
unfoldable pub is_stamp : ℕ → Bool
is_stamp c =
    within b'A' b'Z' c
    || within b'a' b'z' c
    || within b'0' b'9' c
    || c == b'.'
    || c == b'_'
    || c == b'-'

-- `Rotation.instance_id`, from the value of MAIL_INSTANCE_ID.
unfoldable pub instance_id : Text → Text
instance_id value = map (λ c. if is_stamp c then c else b'-') (strip value)

abbrev pub is_empty : Text → Bool
is_empty [] = true
is_empty (c ∷ s) = false

stamp_part : Text → Text
stamp_part [] = []
stamp_part instance_id = codes " inst:" ++ instance_id

unfoldable pub rotation_display_name : Text → Text → Text
unfolding stamp_part
rotation_display_name instance_id day =
    codes "postfix-m365-relay mail relay"
    ++ (stamp_part instance_id ++ (codes " (rotated " ++ (day ++ codes ")")))

take_while : (ℕ → Bool) → Text → Text
take_while p [] = []
take_while p (c ∷ s) = if p c then c ∷ take_while p s else []

abbrev drop_tag : Text → Text
drop_tag (_ ∷ _ ∷ _ ∷ _ ∷ _ ∷ s) = s
drop_tag _ = []

-- The group of `inst:([A-Za-z0-9._-]{1,128})` at the front of a text; empty if it does not match.
match_stamp : Text → Text
unfolding take_while
match_stamp s = if begins (codes "inst:") s then take 128 (take_while is_stamp (drop_tag s)) else []

-- The first match, as `search` finds it.
search_stamp : Text → Text
unfolding match_stamp
search_stamp [] = []
search_stamp (c ∷ s) =
    let rest = search_stamp s in elim (match_stamp (c ∷ s)) [ [] ↦ rest | d ∷ t ↦ d ∷ t ]

unfoldable pub instance_id_of : Text → Text
unfolding search_stamp
instance_id_of display_name = search_stamp display_name

pub data Ownership : Type 0 where
  live retiring superseded foreign unmonitored : Ownership

-- `retiring_key_id and credential.get("keyId") == retiring_key_id`
is_retiring : Option Text → Text → Bool
is_retiring none key_id = false
is_retiring (some retiring_key_id) key_id =
    not (is_empty retiring_key_id) && same key_id retiring_key_id

abbrev pub stamp_of : Credential → Text
stamp_of credential = instance_id_of (or_empty credential.display_name)

by_stamp : Text → Text → Ownership
by_stamp stamped mine =
    if not (is_empty stamped) && not (is_empty mine)
    then (if same stamped mine then superseded else foreign)
    else unmonitored

unfoldable pub classify_credential : Credential → Text → Text → Option Text → Ownership
unfolding is_retiring by_stamp
classify_credential credential live_thumbprint my_instance_id retiring_key_id =
    if same (credential_thumbprint credential) live_thumbprint && not (is_empty live_thumbprint)
    then live
    else if is_retiring retiring_key_id credential.key_id
    then retiring
    else by_stamp (stamp_of credential) my_instance_id
