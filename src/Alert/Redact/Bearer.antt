-- ===== src/Alert/Redact/Bearer.antt =====
-- What `(?i)(bearer\s+)[^\s,;]+` matches at a bearer token.
use postfix_m365_relay.Base.{
  sym, zero, ◌∙◌, arith, ap, ◌+◌, [], ◌≡◌, ◌++◌, ◌≤◌, true, all, length, codes, Bool, Text, refl, ℕ,
}
use postfix_m365_relay.Alert.Redact.{
  behind_bearer, suc, spaced_secret, match_bearer, is_plain, is_space, false, none, not, some,
  run_of, ◌∷◌, after_word, drop,
}

abbrev pub bearer : Text
bearer = codes "bearer"

-- Does the text end here, or go on with something that is none of the kind?
abbrev pub stops : (ℕ → Bool) → Text → Bool
stops p [] = true
stops p (c ∷ s) = not (p c)

run_of-append :
    (p : ℕ → Bool) (s t : Text) → all p s ≡ true → stops p t ≡ true → run_of p (s ++ t) ≡ length s
run_of-append p [] [] h k = refl
run_of-append p [] (c ∷ t) h k = let no_more : p c ≡ false = ground arith in rw no_more refl
run_of-append p (c ∷ s) t h k =
    let first : p c ≡ true = ground arith in
    let others : all p s ≡ true = ground arith in rw (first, run_of-append p s t others k) refl

drop-append : (s t : Text) → drop (length s) (s ++ t) ≡ t
drop-append [] t = refl
drop-append (c ∷ s) t = drop-append s t

after_word-append :
    (w s t rest : Text) → after_word w s ≡ some rest → after_word w (s ++ t) ≡ some (rest ++ t)
after_word-append [] s t rest h = ap (λ o. elim o [ none ↦ none | some r ↦ some (r ++ t) ]) h
after_word-append (x ∷ w) [] t rest h = absurd (cc h)
after_word-append (x ∷ w) (c ∷ s) t rest h = ground (arith, after_word-append w s t rest)

pub after_word-none :
    (w s t : Text) → length w ≤ length s → after_word w s ≡ none → after_word w (s ++ t) ≡ none
after_word-none [] s t l h = absurd (cc h)
after_word-none (x ∷ w) [] t l h = absurd (omega arith)
after_word-none (x ∷ w) (c ∷ s) t l h = ground (arith, after_word-none w s t)

pub after_word-length :
    (w s rest : Text) → after_word w s ≡ some rest → length s ≡ length w + length rest
after_word-length [] s rest h = let e : s ≡ rest = cc h in omega (arith, ap length e)
after_word-length (x ∷ w) [] rest h = absurd (cc h)
after_word-length (x ∷ w) (c ∷ s) rest h = ground (arith, after_word-length w s rest)

-- The word in any case, white space behind it, and a token.
pub record IsBearer (word gap token : Text) : Type 0 where
  pub named : after_word (codes "bearer") word ≡ some []
  pub spaced : (all is_space gap ≡ true) × (1 ≤ length gap)
  pub secret : (all is_plain token ≡ true) × (1 ≤ length token)

plain-space : (c : ℕ) → is_plain c ≡ true → is_space c ≡ false
unfolding is_plain
plain-space c h = ground arith

plain-stops : (s t : Text) → all is_plain s ≡ true → 1 ≤ length s → stops is_space (s ++ t) ≡ true
plain-stops [] t h l = absurd (omega arith)
plain-stops (c ∷ s) t h l =
    let first : is_plain c ≡ true = ground arith in let gap = plain-space c first in ground arith

spaced_secret_of :
    (letters n m : ℕ) (rest : Text)
    → 1 ≤ n
    → 1 ≤ m
    → run_of is_plain (drop n rest) ≡ m
    → spaced_secret letters n rest ≡ some (letters + n, m)
spaced_secret_of letters zero m rest h k e = absurd (omega arith)
spaced_secret_of letters (suc n) zero rest h k e = absurd (omega arith)
spaced_secret_of letters (suc n) (suc m) rest h k e = rw e refl

module _ (word gap token post : Text) (b : IsBearer word gap token)
    (ends : stops is_plain post ≡ true) where
  -- The pattern matches at the word, up to the end of the token.
  pub match_bearer-found :
      (before : ℕ)
      → match_bearer before (word ++ (gap ++ (token ++ post)))
        ≡ some (length word + length gap, length token)
  unfolding match_bearer
  match_bearer-found before =
      let rest = gap ++ (token ++ post) in
      let six : length word ≡ 6 = omega (arith, after_word-length bearer word [] b.named) in
      let behind : after_word bearer (word ++ rest) ≡ some rest =
        after_word-append bearer word rest [] b.named in
      let spaces =
        run_of-append is_space gap (token ++ post) b.spaced.0
          (plain-stops token post b.secret.0 b.secret.1) in
      let plains : run_of is_plain (drop (length gap) rest) ≡ length token =
        ap (λ t. run_of is_plain t) (drop-append gap (token ++ post))
        ∙ run_of-append is_plain token post b.secret.0 ends in
      ap behind_bearer behind
      ∙ (ap (λ n. spaced_secret 6 n rest) spaces
          ∙ (spaced_secret_of 6 (length gap) (length token) rest b.spaced.1 b.secret.1 plains
              ∙ ap (λ n. some (n + length gap, length token)) (sym six)))
