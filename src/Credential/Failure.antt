-- ===== src/Credential/Failure.antt =====
-- What a refused token and a refused removal mean: `classify_token_failure` and
-- `remove_key_already_gone` (scripts/rotate-smtp-relay-cert.py).
use postfix_m365_relay.Base.{
  ◌≢◌, Bool-cases, leb→le, le→leb, ◌↔◌, ◌⊎◌, inl, inr, ◌++◌, ap, ◌≤◌, ◌<◌, begins, ℕ, ◌≡◌, refl,
  Bool, true, false, not, ◌&&◌, ◌||◌, Option, none, some, [], ◌∷◌, arith, leb, ◌==◌, if◌then◌else◌,
  Text, codes, same, holds,
}
use postfix_m365_relay.Credential.Ascii.{lower, lower_char}

pub data Fault : Type 0 where
  transient cert_fault scope unknown : Fault

names_certificate : Text → Bool
names_certificate text =
    holds (codes "aadsts700027") text
    || holds (codes "certificate") text
      && (holds (codes "not valid") text
          || holds (codes "not found") text
          || holds (codes "expired") text
          || holds (codes "revoked") text
          || holds (codes "no longer") text)

names_scope : Text → Bool
names_scope text =
    holds (codes "resource principal") text
    || holds (codes "sendasapp") text
    || holds (codes "aadsts501051") text
    || holds (codes "aadsts500011") text

-- The tests on the body, once the status is known to be below 500.
classify_body : Text → Fault
classify_body text =
    if names_certificate text then cert_fault else if names_scope text then scope else unknown

unfoldable pub classify_token_failure : Option ℕ → Text → Fault
unfolding classify_body names_certificate names_scope
classify_token_failure none body = transient
classify_token_failure (some status) body =
    if leb 500 status then transient else classify_body (lower body)

-- The body of a Graph answer, as `graph()` hands it on and `json.loads` reads it: an object with an
-- error's code and message (each empty where it is missing), text that is no JSON, or JSON that has
-- no `get`.
pub data ErrorBody : Type 0 where
  envelope : Text → Text → ErrorBody
  plain : Text → ErrorBody
  not_object : ErrorBody

-- `none` is an AttributeError, which the function lets through.
gone_body : ErrorBody → Option Bool
gone_body (envelope code message) =
    some (same code (codes "Request_BadRequest") && holds (codes "No credentials found") message)
gone_body (plain text) = some (holds (codes "No credentials found") text)
gone_body not_object = none

unfoldable pub remove_key_already_gone : ℕ → ErrorBody → Option Bool
unfolding gone_body
remove_key_already_gone status body = if not (status == 400) then some false else gone_body body

begins-append : (p s : Text) → begins p (p ++ s) ≡ true
begins-append [] s = refl
begins-append (c ∷ p) s = ground (arith, begins-append p s)

holds_of_begins : (p s : Text) → begins p s ≡ true → holds p s ≡ true
holds_of_begins p [] h = h
holds_of_begins p (c ∷ s) h = ground arith

holds-append : (p before after : Text) → holds p (before ++ (p ++ after)) ≡ true
holds-append p [] after = holds_of_begins p (p ++ after) (begins-append p after)
holds-append p (c ∷ before) after = ground (arith, holds-append p before after)

lower-append : (s t : Text) → lower (s ++ t) ≡ lower s ++ lower t
lower-append [] t = refl
lower-append (c ∷ s) t = ap (λ r. lower_char c ∷ r) (lower-append s t)

lower_char_idem : (c : ℕ) → lower_char (lower_char c) ≡ lower_char c
unfolding lower_char
lower_char_idem c = ground arith

lower_idem : (s : Text) → lower (lower s) ≡ lower s
lower_idem [] = refl
lower_idem (c ∷ s) = cc (lower_char_idem c, lower_idem s)

if_same_shape : (b c : Bool) → (if b then cert_fault else if c then scope else unknown) ≢ transient
if_same_shape b c h = ground arith

classify_body-ne-transient : (text : Text) → classify_body text ≢ transient
unfolding classify_body
classify_body-ne-transient text = if_same_shape (names_certificate text) (names_scope text)

server_error :
    (s : ℕ)
    → ◌≡◌ {A = Option ℕ} (some s) none
      ⊎ ((t : ℕ) × (◌≡◌ {A = Option ℕ} (some s) (some t)) × (500 ≤ t))
    → 500 ≤ s
server_error s h = ground arith

names_certificate-code :
    (before code after : Text)
    → lower code ≡ codes "aadsts700027"
    → names_certificate (lower (before ++ (code ++ after))) ≡ true
unfolding names_certificate
names_certificate-code before code after spelled = rw (lower-append before (code ++ after)) (
    rw (lower-append code after)
      (rw spelled (rw (holds-append (codes "aadsts700027") (lower before) (lower after)) refl)))

below_500 : (s : ℕ) → s < 500 → leb 500 s ≡ false
below_500 s h = ground arith

-- A failure is transient exactly if there was no HTTP answer or a status of 500 or more, whatever the
-- body says.
pub classify_token_failure-transient :
    (status : Option ℕ) (body : Text)
    → (classify_token_failure status body ≡ transient)
      ↔ ((status ≡ none) ⊎ ((s : ℕ) × (status ≡ some s) × (500 ≤ s)))
unfolding classify_token_failure
classify_token_failure-transient none body = (λ _. inl refl, λ _. refl)
classify_token_failure-transient (some s) body = (
  λ h. elim (Bool-cases (leb 500 s)) [
    | inl high ↦ inr (s, refl, leb→le 500 s high)
    | inr low ↦ absurd (classify_body-ne-transient (lower body) (rw low at h))
  ],
  λ h. rw (le→leb 500 s (server_error s h)) refl,
)

-- The verdict does not depend on the case of the body's letters.
pub classify_token_failure-lower :
    (status : Option ℕ) (body : Text)
    → classify_token_failure status (lower body) ≡ classify_token_failure status body
unfolding classify_token_failure
classify_token_failure-lower none body = refl
classify_token_failure-lower (some s) body = rw lower_idem refl

-- A refusal below 500 that carries Microsoft's code for a certificate it does not know is a
-- certificate fault, wherever in the body the code stands and in whatever case.
pub classify_token_failure-code :
    (s : ℕ) (before code after : Text)
    → s < 500
    → lower code ≡ codes "aadsts700027"
    → classify_token_failure (some s) (before ++ (code ++ after)) ≡ cert_fault
unfolding classify_token_failure
classify_token_failure-code s before code after h spelled =
    rw (below_500 s h) (rw (names_certificate-code before code after spelled, classify_body) refl)
