-- ===== src/Smtp/Initial.antt =====
-- The initial response of XOAUTH2, as a server reads it.
use postfix_m365_relay.Base.{
  ltb, arith, false, ◌∙◌, ◌++◌, ap, not, all, true, List, ◌≡◌, Bool, same, codes, [], ◌==◌,
  if◌then◌else◌, ◌∷◌, some, none, Text, Option, refl, ℕ,
}
use postfix_m365_relay.Smtp.Session.{xoauth2_token, initial_response}
use postfix_m365_relay.Credential.Base64.{b64decode-b64encode, AllBytes, b64decode}

-- The text after a prefix, and what stands before and after the next control-A.
abbrev pub after_prefix : Text → Text → Option Text
after_prefix [] s = some s
after_prefix (p ∷ ps) [] = none
after_prefix (p ∷ ps) (c ∷ s) = if p == c then after_prefix ps s else none

abbrev pub onto_first : ℕ → Option (Text × Text) → Option (Text × Text)
onto_first c none = none
onto_first c (some (field, rest)) = some (c ∷ field, rest)

abbrev pub to_control_a : Text → Option (Text × Text)
to_control_a [] = none
to_control_a (c ∷ s) = if c == 1 then some ([], s) else onto_first c (to_control_a s)

-- The token, where the two closing control-As follow it.
abbrev pub as_token : Text → Option (Text × Text) → Option (Text × Text)
as_token mailbox none = none
as_token mailbox (some (token, rest)) = if same rest (1 ∷ []) then some (mailbox, token) else none

abbrev pub read_bearer : Text → Option Text → Option (Text × Text)
read_bearer mailbox none = none
read_bearer mailbox (some s) = as_token mailbox (to_control_a s)

abbrev pub read_user : Option (Text × Text) → Option (Text × Text)
read_user none = none
read_user (some (mailbox, rest)) = read_bearer mailbox (after_prefix (codes "auth=Bearer ") rest)

abbrev pub read_mailbox : Option Text → Option (Text × Text)
read_mailbox none = none
read_mailbox (some s) = read_user (to_control_a s)

-- `user=` mailbox ^A `auth=Bearer ` token ^A ^A
abbrev pub read_fields : Text → Option (Text × Text)
read_fields s = read_mailbox (after_prefix (codes "user=") s)

abbrev pub read_decoded : Option (List ℕ) → Option (Text × Text)
read_decoded none = none
read_decoded (some s) = read_fields s

-- The mailbox and the token that a server finds in an initial response.
unfoldable pub read_initial : Text → Option (Text × Text)
read_initial text = read_decoded (b64decode text)

abbrev pub has_no_control_a : Text → Bool
has_no_control_a s = all (λ c. not (c == 1)) s

to_control_a-append :
    (s rest : Text) → has_no_control_a s ≡ true → to_control_a (s ++ (1 ∷ rest)) ≡ some (s, rest)
to_control_a-append [] rest h = refl
to_control_a-append (c ∷ s) rest h =
    let first : (c == 1) ≡ false = ground arith in
    let others : has_no_control_a s ≡ true = ground arith in
    rw (first, to_control_a-append s rest others) refl

read_fields-initial_response :
    (mailbox token : Text)
    → has_no_control_a mailbox ≡ true
    → has_no_control_a token ≡ true
    → read_fields (initial_response mailbox token) ≡ some (mailbox, token)
unfolding initial_response
read_fields-initial_response mailbox token h k =
    ap read_user (to_control_a-append mailbox _ h)
    ∙ ap (λ o. as_token mailbox o) (to_control_a-append token (1 ∷ []) k)

abbrev pub is_ascii : Text → Bool
is_ascii s = all (λ c. ltb c 128) s

ascii-append : (s t : Text) → is_ascii s ≡ true → is_ascii t ≡ true → is_ascii (s ++ t) ≡ true
ascii-append [] t h k = k
ascii-append (c ∷ s) t h k = ground (arith, ascii-append s t)

ascii_bytes : (s : Text) → is_ascii s ≡ true → AllBytes s
ascii_bytes [] h = tt
ascii_bytes (c ∷ s) h = (ground arith, ascii_bytes s (ground arith))

initial_bytes :
    (mailbox token : Text)
    → is_ascii mailbox ≡ true
    → is_ascii token ≡ true
    → AllBytes (initial_response mailbox token)
unfolding initial_response
initial_bytes mailbox token h k =
    let last = token ++ (1 ∷ 1 ∷ []) in
    let field : Text = 1 ∷ codes "auth=Bearer " in
    let ends = ascii-append token (1 ∷ 1 ∷ []) k refl in
    let bearer = ascii-append field last refl ends in
    let named = ascii-append mailbox (field ++ last) h bearer in
    ascii_bytes (initial_response mailbox token)
      (ascii-append (codes "user=") (mailbox ++ (field ++ last)) refl named)

-- A server that decodes the initial response finds in it the mailbox and the bearer token that were put
-- in, and nothing else, where neither has a control-A in it and both are ASCII text.
pub read_initial-xoauth2_token :
    (mailbox token : Text)
    → is_ascii mailbox ≡ true
    → is_ascii token ≡ true
    → has_no_control_a mailbox ≡ true
    → has_no_control_a token ≡ true
    → read_initial (xoauth2_token mailbox token) ≡ some (mailbox, token)
unfolding read_initial xoauth2_token
read_initial-xoauth2_token mailbox token mb tb h k =
    ap read_decoded
      (b64decode-b64encode (initial_response mailbox token) (initial_bytes mailbox token mb tb))
    ∙ read_fields-initial_response mailbox token h k
