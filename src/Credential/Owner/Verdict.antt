-- ===== src/Credential/Owner/Verdict.antt =====
-- `classify_credential`: the verdict on a key of a shared app registration.
use postfix_m365_relay.Base.{
  ◌≤◌, ◌<◌, ◌≡◌, ◌≢◌, ◌↔◌, ◌∙◌, false, Option, none, some, [], arith, if◌then◌else◌, Text, length,
  same, same_iff, same_refl,
}
use postfix_m365_relay.Credential.Thumbprint.{Credential, credential_thumbprint}
use postfix_m365_relay.Credential.Owner.{
  live, superseded, foreign, is_empty, stamp_of, classify_credential, instance_id_of,
  rotation_display_name,
}
use postfix_m365_relay.Credential.Owner.Stamp.{
  IsStamp, instance_id_of-rotation_display_name, instance_id_of-name, instance_id_of-long,
  is_empty-take,
}

module _ (c : Credential) (live_thumbprint mine : Text) (retiring_key : Option Text) where
  -- The live certificate, whoever uploaded it, and it alone, is classified as live.
  pub classify_credential-live :
      (classify_credential c live_thumbprint mine retiring_key ≡ live)
      ↔ ((credential_thumbprint c ≡ live_thumbprint) × (live_thumbprint ≢ []))
  unfolding classify_credential
  classify_credential-live = ground (arith, same_iff (credential_thumbprint c) live_thumbprint)

  -- A key that is offered for removal is this instance's own by its stamp, is not live, and is not
  -- the key whose removal is already scheduled.
  pub superseded-owned :
      classify_credential c live_thumbprint mine retiring_key ≡ superseded
      → (stamp_of c ≡ mine)
        × (mine ≢ [])
        × (live_thumbprint ≢ [] → credential_thumbprint c ≢ live_thumbprint)
        × (c.key_id ≢ [] → retiring_key ≢ some c.key_id)
  unfolding classify_credential
  superseded-owned h = ground (
    arith,
    same_iff (credential_thumbprint c) live_thumbprint,
    same_iff (stamp_of c) mine,
    same_refl c.key_id,
  )

-- Between instances that stamp their keys, the verdict on a stamped key is exact: its owner sees it
-- as superseded, any other instance as foreign, unless it is live or already retiring.
pub classify_credential-stamped :
    (owner mine day live_thumbprint : Text) (c : Credential)
    → c.display_name ≡ some (rotation_display_name owner day)
    → IsStamp owner
    → length owner ≤ 128
    → IsStamp mine
    → credential_thumbprint c ≢ live_thumbprint
    → classify_credential c live_thumbprint mine none
      ≡ (if same owner mine then superseded else foreign)
unfolding classify_credential
classify_credential-stamped owner mine day live_thumbprint c named ho short hm other = ground (
  arith,
  instance_id_of-rotation_display_name owner day ho short,
  ho.occupied,
  hm.occupied,
  same_iff (credential_thumbprint c) live_thumbprint,
)

-- A stamp that is neither empty nor `mine` makes a key foreign.
foreign_of_stamp :
    (s mine live_thumbprint : Text) (c : Credential)
    → stamp_of c ≡ s
    → is_empty s ≡ false
    → is_empty mine ≡ false
    → s ≢ mine
    → credential_thumbprint c ≢ live_thumbprint
    → classify_credential c live_thumbprint mine none ≡ foreign
unfolding classify_credential
foreign_of_stamp s mine live_thumbprint c e hs hm ne other =
    ground (arith, same_iff s mine, same_iff (credential_thumbprint c) live_thumbprint)

-- An identity of more than 128 characters does not recognise its own keys: each of them that is not
-- live is foreign to the instance that added it.
pub classify_credential-long :
    (mine day live_thumbprint : Text) (c : Credential)
    → c.display_name ≡ some (rotation_display_name mine day)
    → IsStamp mine
    → 128 < length mine
    → credential_thumbprint c ≢ live_thumbprint
    → classify_credential c live_thumbprint mine none ≡ foreign
classify_credential-long mine day live_thumbprint c named hm long other =
    let name = rotation_display_name mine day in
    foreign_of_stamp (instance_id_of name) mine live_thumbprint c (rw named)
      (rw (instance_id_of-name mine day hm) (is_empty-take 127 mine ∙ hm.occupied)) hm.occupied
      (instance_id_of-long mine day hm long) other
