-- ===== src/Credential/Owner/Stamp.antt =====
-- `rotation_display_name` and `instance_id_of`: writing and reading the stamp of an instance.
use postfix_m365_relay.Base.{
  ℕ, zero, suc, ◌≤◌, ◌<◌, ◌≡◌, ◌≢◌, refl, ap, sym, ◌∙◌, true, false, [], ◌∷◌, ◌++◌, map, arith,
  Text, codes, length, if◌then◌else◌, all, take, length-take,
}
use postfix_m365_relay.Credential.Ascii.{strip, is_space}
use postfix_m365_relay.Credential.Thumbprint.{strip-no_space, no_space}
use postfix_m365_relay.Credential.Owner.{
  is_stamp, instance_id, rotation_display_name, take_while, instance_id_of, is_empty,
}

-- A value that can be a stamp: not empty, and of the stamp's characters only.
pub record IsStamp (s : Text) : Type 0 where
  pub charset : all is_stamp s ≡ true
  pub occupied : is_empty s ≡ false

-- What the regular expression takes after `inst:`.
take_while-append :
    (id rest : Text) → all is_stamp id ≡ true → take_while is_stamp (id ++ b' ' ∷ rest) ≡ id
unfolding take_while
take_while-append [] rest h = unfold is_stamp in refl
take_while-append (c ∷ id) rest h = ground (arith, take_while-append id rest)

-- What is read back is the first 128 characters.
pub instance_id_of-name :
    (id day : Text) → IsStamp id → instance_id_of (rotation_display_name id day) ≡ take 128 id
unfolding instance_id_of rotation_display_name
instance_id_of-name [] day h = cc
instance_id_of-name (c ∷ id) day h =
    ground (arith, take_while-append id (codes "(rotated " ++ (day ++ codes ")")))

take_all : (n : ℕ) (s : Text) → length s ≤ n → take n s ≡ s
take_all zero [] h = refl
take_all zero (c ∷ s) h = absurd (omega arith)
take_all (suc n) [] h = refl
take_all (suc n) (c ∷ s) h = ap (λ t. c ∷ t) (take_all n s (omega arith))

-- The stamp of a name is the instance that gave it, up to 128 characters.
pub instance_id_of-rotation_display_name :
    (id day : Text)
    → IsStamp id
    → length id ≤ 128
    → instance_id_of (rotation_display_name id day) ≡ id
instance_id_of-rotation_display_name id day h short =
    instance_id_of-name id day h ∙ take_all 128 id short

-- A longer identity is read back cut, and so is never the identity itself.
pub instance_id_of-long :
    (id day : Text)
    → IsStamp id
    → 128 < length id
    → instance_id_of (rotation_display_name id day) ≢ id
instance_id_of-long id day h long e =
    absurd
      (omega (arith, length-take {0} 128 id, ap length (sym (instance_id_of-name id day h) ∙ e)))

pub is_empty-take : (n : ℕ) (s : Text) → is_empty (take (suc n) s) ≡ is_empty s
is_empty-take n [] = refl
is_empty-take n (c ∷ s) = refl

is_stamp-not_space : (c : ℕ) → is_stamp c ≡ true → is_space c ≡ false
unfolding is_stamp is_space
is_stamp-not_space c h = ground arith

abbrev to_stamp : ℕ → ℕ
to_stamp c = if is_stamp c then c else b'-'

to_stamp-is_stamp : (c : ℕ) → is_stamp (to_stamp c) ≡ true
unfolding is_stamp
to_stamp-is_stamp c = ground arith

charset-map : (s : Text) → all is_stamp (map to_stamp s) ≡ true
charset-map [] = refl
charset-map (c ∷ s) = ground (arith, to_stamp-is_stamp c, charset-map s)

no_space_of_charset : (s : Text) → all is_stamp s ≡ true → no_space s ≡ true
no_space_of_charset [] h = refl
no_space_of_charset (c ∷ s) h = ground (arith, is_stamp-not_space c, no_space_of_charset s)

map-to_stamp : (s : Text) → all is_stamp s ≡ true → map to_stamp s ≡ s
map-to_stamp [] h = refl
map-to_stamp (c ∷ s) h = ground (arith, map-to_stamp s)

-- Whatever MAIL_INSTANCE_ID holds, the identity has the stamp's characters only, and taking it for
-- the variable's value again changes nothing.
pub instance_id_normal :
    (value : Text)
    → (all is_stamp (instance_id value) ≡ true)
      × (instance_id (instance_id value) ≡ instance_id value)
unfolding instance_id
instance_id_normal value =
    let charset : all is_stamp (instance_id value) ≡ true = charset-map (strip value) in
    (
      charset,
      rw (strip-no_space (instance_id value) (no_space_of_charset (instance_id value) charset))
          (map-to_stamp (instance_id value) charset),
    )
