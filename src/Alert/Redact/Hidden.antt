-- ===== src/Alert/Redact/Hidden.antt =====
-- A bearer token, and what of it can be seen in the redacted text.
use postfix_m365_relay.Base.{
  keep-all, take-all, ◌==◌, ◌&&◌, sym, ◌∙◌, arith, ap, ◌+◌, [], ◌≡◌, ◌++◌, ◌≤◌, true, all, length,
  codes, Bool, Text, refl, ℕ,
}
use postfix_m365_relay.Alert.Redact.{
  redact_keywords, redact_jwts, redact_pems, redact_bearer, Option, take, prepared, place_of,
  redact, placed, written, rest_hidden, keeping, outside, substitute, Matcher, behind_bearer,
  match_bearer, is_plain, false, none, not, some, ◌∷◌, after_word,
}
use postfix_m365_relay.Alert.Redact.Bearer.{
  IsBearer, after_word-length, after_word-none, bearer, match_bearer-found, stops,
}

module _ (matcher : Matcher) (marker : Text) where
  -- Two texts that are kept alike.
  kept_alike :
      (s t u : Text) (h k before : ℕ)
      → ((b : ℕ)
          → substitute matcher marker b (keeping 0 h) t
            ≡ substitute matcher marker b (keeping 0 k) u)
      → substitute matcher marker before (keeping (length s) h) (s ++ t)
        ≡ substitute matcher marker before (keeping (length s) k) (s ++ u)
  unfolding substitute
  kept_alike [] t u h k before same_rest = same_rest before
  kept_alike (c ∷ s) t u h k before same_rest = ap (λ r. c ∷ r) (kept_alike s t u h k c same_rest)

  -- What is hidden leaves only the place behind it.
  hidden_to :
      (s t : Text) (before : ℕ)
      → (b : ℕ) × (substitute matcher marker before (rest_hidden (length s)) (s ++ t)
          ≡ substitute matcher marker b outside t)
  unfolding substitute
  hidden_to [] t before = (before, refl)
  hidden_to (c ∷ s) t before = hidden_to s t c

-- The pattern does not look at the character before.
before_free :
    (marker t : Text) (b c : ℕ)
    → substitute match_bearer marker b outside t ≡ substitute match_bearer marker c outside t
unfolding substitute match_bearer
before_free marker [] b c = refl
before_free marker (x ∷ t) b c = refl

joined : (s t u : Text) → s ++ (t ++ u) ≡ (s ++ t) ++ u
joined [] t u = refl
joined (c ∷ s) t u = ap (λ r. c ∷ r) (joined s t u)

length-joined : (s t : Text) → length (s ++ t) ≡ length s + length t
length-joined [] t = omega arith
length-joined (c ∷ s) t = omega (arith, length-joined s t)

-- A match at the place of the substitution.
at_match :
    (marker t : Text) (b k h : ℕ)
    → 1 ≤ length t
    → match_bearer b t ≡ some (k, h)
    → substitute match_bearer marker b outside t ≡ substitute match_bearer marker b (keeping k h) t
unfolding substitute
at_match marker [] b k h l e = absurd (omega arith)
at_match marker (c ∷ t) b k h l e =
    ap
      (λ found.
        written match_bearer marker (placed outside found) c
          (λ later. substitute match_bearer marker c later t))
      e

module _ (marker word gap post : Text) (ends : stops is_plain post ≡ true) where
  -- A token is replaced by the marker, and what follows does not depend on it.
  token_replaced :
      (token : Text) (b : ℕ)
      → IsBearer word gap token
      → substitute match_bearer marker b (keeping 0 (length token)) (token ++ post)
        ≡ marker ++ substitute match_bearer marker 0 outside post
  unfolding substitute
  token_replaced [] b bearer_token = absurd (omega (arith, bearer_token.secret.1))
  token_replaced (c ∷ token) b bearer_token =
      let gone = hidden_to match_bearer marker token post c in
      ap (λ r. marker ++ r) (gone.1 ∙ before_free marker post gone.0 0)

  -- What the substitution does to the word and the token behind it.
  seen :
      (token : Text) (b : ℕ)
      → IsBearer word gap token
      → substitute match_bearer marker b outside (word ++ (gap ++ (token ++ post)))
        ≡ substitute match_bearer marker b
            (keeping (length (word ++ gap)) (length token))
            ((word ++ gap) ++ (token ++ post))
  seen token b its =
      let six = after_word-length bearer word [] its.named in
      let long = length-joined word (gap ++ (token ++ post)) in
      let found = match_bearer-found word gap token post its ends b in
      at_match marker (word ++ (gap ++ (token ++ post))) b _ _ (omega (arith, six, long)) found
      ∙ (ap
            (λ n.
              substitute match_bearer marker b (keeping n (length token))
                (word ++ (gap ++ (token ++ post))))
            (sym (length-joined word gap))
          ∙ ap
              (λ t.
                substitute match_bearer marker b (keeping (length (word ++ gap)) (length token)) t)
              (joined word gap (token ++ post)))

  module _ (one two : Text) (first : IsBearer word gap one) (second : IsBearer word gap two) where
    tokens_alike :
        (b : ℕ)
        → substitute match_bearer marker b outside (word ++ (gap ++ (one ++ post)))
          ≡ substitute match_bearer marker b outside (word ++ (gap ++ (two ++ post)))
    tokens_alike b =
        seen one b first
        ∙ (kept_alike match_bearer marker (word ++ gap) (one ++ post) (two ++ post) (length one)
              (length two) b (λ c. token_replaced one c first ∙ sym (token_replaced two c second))
            ∙ sym (seen two b second))

-- No match begins in the text before the word.
abbrev pub calm : Text → Text → Bool
calm [] word = true
calm (c ∷ before) word =
    elim (after_word (codes "bearer") (c ∷ (before ++ word))) [ none ↦ true | some rest ↦ false ]
    && calm before word

none_of :
    (o : Option Text) (b : Bool)
    → (elim o [ none ↦ true | some rest ↦ false ] && b) ≡ true
    → o ≡ none
none_of none b h = refl
none_of (some rest) b h = absurd (cc h)

calm-none :
    (before word rest : Text) (c b : ℕ)
    → after_word bearer word ≡ some []
    → calm (c ∷ before) word ≡ true
    → match_bearer b (c ∷ (before ++ (word ++ rest))) ≡ none
unfolding match_bearer
calm-none before word rest c b named h =
    let absent : after_word bearer (c ∷ (before ++ word)) ≡ none = none_of _ _ h in
    let six = after_word-length bearer word [] named in
    let long = length-joined before word in
    ap (λ r. behind_bearer (after_word bearer (c ∷ r))) (joined before word rest)
    ∙ ap behind_bearer
        (after_word-none bearer (c ∷ (before ++ word)) rest (omega (arith, six, long)) absent)

passed :
    (marker before word rest : Text) (c b : ℕ)
    → after_word bearer word ≡ some []
    → calm (c ∷ before) word ≡ true
    → substitute match_bearer marker b outside (c ∷ (before ++ (word ++ rest)))
      ≡ c ∷ substitute match_bearer marker c outside (before ++ (word ++ rest))
unfolding substitute
passed marker before word rest c b named h =
    ap
      (λ found.
        written match_bearer marker (place_of found) c
          (λ later. substitute match_bearer marker c later (before ++ (word ++ rest))))
      (calm-none before word rest c b named h)

calm-rest : (c : ℕ) (before word : Text) → calm (c ∷ before) word ≡ true → calm before word ≡ true
calm-rest c before word h = ground arith

-- Texts that begin alike, up to a place where they are redacted alike.
alike_before :
    (marker before word t u : Text) (b : ℕ)
    → after_word bearer word ≡ some []
    → calm before word ≡ true
    → ((c : ℕ)
        → substitute match_bearer marker c outside (word ++ t)
          ≡ substitute match_bearer marker c outside (word ++ u))
    → substitute match_bearer marker b outside (before ++ (word ++ t))
      ≡ substitute match_bearer marker b outside (before ++ (word ++ u))
unfolding substitute
alike_before marker [] word t u b named h same_rest = same_rest b
alike_before marker (c ∷ before) word t u b named h same_rest =
    passed marker before word t c b named h
    ∙ (ap (λ r. c ∷ r)
          (alike_before marker before word t u c named (calm-rest c before word h) same_rest)
        ∙ sym (passed marker before word u c b named h))

-- A text that `redact` takes as it is: it has no NUL and at most 8000 characters.
abbrev pub Fits : Text → Type 0
Fits t = (all (λ c. not (c == 0)) t ≡ true) × (length t ≤ 8000)

prepared-Fits : (t : Text) → Fits t → prepared t ≡ t
unfolding prepared
prepared-Fits t h = ap (λ r. take 8000 r) (keep-all _ t h.0) ∙ take-all 8000 t h.1

-- Nothing of a bearer token can be told from the redacted text: two texts that differ only in a token
-- behind the word bearer, in any case, and white space are redacted to the same text. Before the word no
-- other bearer begins, the token ends where a comma, a semicolon, white space or the text's end comes,
-- and the texts have no NUL and at most 8000 characters.
pub redact-hides :
    (before word gap one two post : Text)
    → IsBearer word gap one
    → IsBearer word gap two
    → calm before word ≡ true
    → stops is_plain post ≡ true
    → Fits (before ++ (word ++ (gap ++ (one ++ post))))
    → Fits (before ++ (word ++ (gap ++ (two ++ post))))
    → redact (before ++ (word ++ (gap ++ (one ++ post))))
      ≡ redact (before ++ (word ++ (gap ++ (two ++ post))))
unfolding redact redact_bearer
redact-hides before word gap one two post first second h ends fits_one fits_two =
    ap (λ t. redact_pems (redact_jwts (redact_keywords t)))
      (ap (λ t. redact_bearer t) (prepared-Fits _ fits_one)
        ∙ (alike_before (codes "[REDACTED]") before word _ _ 0 first.named h
              (tokens_alike (codes "[REDACTED]") word gap post ends one two first second)
            ∙ ap (λ t. redact_bearer t) (sym (prepared-Fits _ fits_two))))
