-- ===== src/Tests/CredentialRuns.antt =====
-- Witnesses of the theorems on credentials.
use postfix_m365_relay.Base.{
  ◌≡◌, ◌≢◌, refl, true, none, some, List, [], ◌∷◌, ◌++◌, Text, codes, ℕ, all, map, arith,
  ne_of_same,
}
use postfix_m365_relay.Credential.Ascii.{is_hex, lower_char, is_space, upper_char, strip}
use postfix_m365_relay.Credential.Base64.{b64encode}
use postfix_m365_relay.Credential.Thumbprint.{
  capital_hex, Credential, thumbprint_of, credential_thumbprint, Spells, thumbprint_of-b64encode,
}
use postfix_m365_relay.Credential.Owner.{
  superseded, foreign, is_stamp, rotation_display_name, classify_credential,
}
use postfix_m365_relay.Credential.Owner.Stamp.{IsStamp}
use postfix_m365_relay.Credential.Owner.Verdict.{
  classify_credential-stamped, classify_credential-long,
}
use postfix_m365_relay.Tests.Fixture.{old_digest, fresh_digest}

-- Forty digits, written in small letters and with colons.
spelled : Spells (codes "aB:") (codes "AB")
unfolding lower_char is_hex
spelled = Spells.small b'A' refl (Spells.capital b'B' refl (Spells.colon Spells.done))

abbrev twenty_zeros : List ℕ
twenty_zeros = 0 ∷ 0 ∷ 0 ∷ 0 ∷ 0 ∷ 0 ∷ 0 ∷ 0 ∷ 0 ∷ 0 ∷ 0 ∷ 0 ∷ 0 ∷ 0 ∷ 0 ∷ 0 ∷ 0 ∷ 0 ∷ 0 ∷ 255 ∷ []

thumbprint_of-b64encode_example : thumbprint_of (b64encode twenty_zeros) ≡ capital_hex twenty_zeros
thumbprint_of-b64encode_example = thumbprint_of-b64encode twenty_zeros refl (omega arith)

-- Every digit small.
small_digits : (s : Text) → all is_hex s ≡ true → Spells (map lower_char s) s
small_digits [] h = Spells.done
small_digits (c ∷ s) h = Spells.small c (ground arith) (small_digits s (ground arith))

abbrev stamp_a : Text
stamp_a = codes "relay-a"

IsStamp-a : IsStamp stamp_a
unfolding is_stamp
IsStamp-a = record { charset = refl; occupied = refl }

abbrev stamped : Text → Credential
stamped who = record {
  key_id = codes "k";
  custom_key_identifier = some fresh_digest;
  display_name = some (rotation_display_name who (codes "2026-01-01"));
}

fresh_is_not_old : credential_thumbprint (stamped stamp_a) ≢ old_digest
unfolding credential_thumbprint is_space upper_char is_hex strip
fresh_is_not_old = ne_of_same (credential_thumbprint (stamped stamp_a)) old_digest refl

classify_credential-stamped_example :
    classify_credential (stamped stamp_a) old_digest stamp_a none ≡ superseded
classify_credential-stamped_example =
    classify_credential-stamped stamp_a stamp_a (codes "2026-01-01") old_digest (stamped stamp_a)
      refl IsStamp-a (omega arith) IsStamp-a fresh_is_not_old

-- An identity of 130 characters.
abbrev tens : Text → Text
tens s = s ++ s ++ s ++ s ++ s ++ s ++ s ++ s ++ s ++ s

abbrev long_id : Text
long_id = tens (codes "relay-number1")

IsStamp-long : IsStamp long_id
unfolding is_stamp
IsStamp-long = record { charset = refl; occupied = refl }

long_is_not_old : credential_thumbprint (stamped long_id) ≢ old_digest
unfolding credential_thumbprint is_space upper_char is_hex strip
long_is_not_old = ne_of_same (credential_thumbprint (stamped long_id)) old_digest refl

classify_credential-long_example :
    classify_credential (stamped long_id) old_digest long_id none ≡ foreign
classify_credential-long_example =
    classify_credential-long long_id (codes "2026-01-01") old_digest (stamped long_id) refl
      IsStamp-long (omega arith) long_is_not_old
