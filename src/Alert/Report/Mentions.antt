-- ===== src/Alert/Report/Mentions.antt =====
-- What an administrator finds in the e-mail of a report, and what nobody finds in it.
use postfix_m365_relay.Base.{
  zero, ◌∙◌, sym, arith, ap, [], ◌∷◌, true, ◌≡◌, ◌++◌, Memᴰ, begins, holds, List, Text, refl, ℕ,
}
use mathlib.Core.List.Memᴰ.{head, tail}
use postfix_m365_relay.Alert.Report.{
  Payload, none, Locale, suc, some, codes, email_parts, build_report, Option, email_body, bullets,
  Report,
}
use postfix_m365_relay.Alert.Report.{concat}
use postfix_m365_relay.Alert.Redact.Bearer.{stops, IsBearer}
use postfix_m365_relay.Alert.Redact.Hidden.{redact-hides, Fits, calm}
use postfix_m365_relay.Alert.Redact.{is_plain}

begins_self : (p s : Text) → begins p (p ++ s) ≡ true
begins_self [] s = refl
begins_self (c ∷ p) s = ground (arith, begins_self p s)

begins-append : (p s t : Text) → begins p s ≡ true → begins p (s ++ t) ≡ true
begins-append [] s t h = refl
begins-append (c ∷ p) [] t h = absurd (cc h)
begins-append (c ∷ p) (d ∷ s) t h = ground (arith, begins-append p s t)

holds-here : (p s : Text) → begins p s ≡ true → holds p s ≡ true
holds-here p [] h = h
holds-here p (c ∷ s) h = ground arith

holds_self : (p : Text) → holds p p ≡ true
holds_self p = holds-here p p (ap (λ s. begins p s) (sym (append_nil p)) ∙ begins_self p [])
  where
    append_nil : (s : Text) → s ++ [] ≡ s
    append_nil [] = refl
    append_nil (c ∷ s) = ap (λ r. c ∷ r) (append_nil s)

holds-append : (p s t : Text) → holds p s ≡ true → holds p (s ++ t) ≡ true
holds-append p [] t h = holds-here p t (begins-append p [] t h)
holds-append p (c ∷ s) t h =
    let early = begins-append p (c ∷ s) t in
    let late = holds-append p s t in ground (arith, early, late)

holds-behind : (p s t : Text) → holds p t ≡ true → holds p (s ++ t) ≡ true
holds-behind p [] t h = h
holds-behind p (c ∷ s) t h = ground (arith, holds-behind p s t h)

-- What a piece holds, the whole holds.
holds-concat :
    (p part : Text) (parts : List Text)
    → Memᴰ part parts
    → holds p part ≡ true
    → holds p (concat parts) ≡ true
holds-concat p part [] m h = elim m [ ]
holds-concat p part (first ∷ parts) (head e) h =
    holds-append p first (concat parts) (ap (λ t. holds p t) (sym e) ∙ h)
holds-concat p part (first ∷ parts) (tail m) h =
    holds-behind p first (concat parts) (holds-concat p part parts m h)

holds-bullets :
    (item : Text) (items : List Text) → Memᴰ item items → holds item (bullets items) ≡ true
holds-bullets item [] m = elim m [ ]
holds-bullets item (one ∷ []) (head e) =
    holds-behind item (codes "- ") one (ap (λ t. holds item t) (sym e) ∙ holds_self item)
holds-bullets item (one ∷ []) (tail m) = elim m [ ]
holds-bullets item (one ∷ next ∷ items) (head e) =
    holds-behind item (codes "- ") (one ++ (10 ∷ bullets (next ∷ items))) (
      holds-append item one (10 ∷ bullets (next ∷ items))
        (ap (λ t. holds item t) (sym e) ∙ holds_self item))
holds-bullets item (one ∷ next ∷ items) (tail m) =
    holds-behind item (codes "- ") (one ++ (10 ∷ bullets (next ∷ items))) (
      holds-behind item one (10 ∷ bullets (next ∷ items)) (
        holds-behind item (10 ∷ []) (bullets (next ∷ items)) (holds-bullets item (next ∷ items) m)))

abbrev nth : ℕ → List Text → Option Text
nth n [] = none
nth zero (t ∷ texts) = some t
nth (suc n) (t ∷ texts) = nth n texts

nth-Mem : (n : ℕ) (texts : List Text) (t : Text) → nth n texts ≡ some t → Memᴰ t texts
nth-Mem n [] t h = absurd (cc h)
nth-Mem zero (one ∷ texts) t h = head (cc h)
nth-Mem (suc n) (one ∷ texts) t h = tail (nth-Mem n texts t h)

-- The piece at a place of the e-mail.
body_holds :
    (r : Report) (n : ℕ) (p part : Text)
    → nth n (email_parts r) ≡ some part
    → holds p part ≡ true
    → holds p (email_body r) ≡ true
unfolding email_body
body_holds r n p part at h =
    holds-concat p part (email_parts r) (nth-Mem n (email_parts r) part at) h

-- The text holds the event, the reference, the evidence, and every cause and every remedy.
pub record Mentions (r : Report) (text : Text) : Type 0 where
  pub event : holds r.event text ≡ true
  pub reference : holds r.reference_id text ≡ true
  pub evidence : holds r.evidence text ≡ true
  pub causes : (item : Text) → Memᴰ item r.likely_causes → holds item text ≡ true
  pub remedies : (item : Text) → Memᴰ item r.remediation → holds item text ≡ true

-- The e-mail of any report names its event and its reference and holds the evidence and every likely
-- cause and suggested action whole.
pub email_body-Mentions : (r : Report) → Mentions r (email_body r)
unfolding email_parts
email_body-Mentions r = record {
  event = body_holds r 5 r.event r.event refl (holds_self r.event);
  reference = body_holds r 7 r.reference_id r.reference_id refl (holds_self r.reference_id);
  evidence = body_holds r 25 r.evidence r.evidence refl (holds_self r.evidence);
  causes = λ item m. body_holds r 27 item _ refl (holds-bullets item r.likely_causes m);
  remedies = λ item m. body_holds r 29 item _ refl (holds-bullets item r.remediation m);
}

-- Nothing of a bearer token in a caller's detail can be told from the report, nor from the e-mail: the
-- reports on two details that differ only in a token behind the word bearer, in any case, and white
-- space are the same. Before the word no other bearer begins, the token ends where a comma, a semicolon,
-- white space or the text's end comes, and the details have no NUL and at most 8000 characters.
pub build_report-hides :
    (locale : Locale) (payload : Payload) (before word gap one two post : Text)
    → IsBearer word gap one
    → IsBearer word gap two
    → calm before word ≡ true
    → stops is_plain post ≡ true
    → Fits (before ++ (word ++ (gap ++ (one ++ post))))
    → Fits (before ++ (word ++ (gap ++ (two ++ post))))
    → (build_report locale payload (before ++ (word ++ (gap ++ (one ++ post))))
        ≡ build_report locale payload (before ++ (word ++ (gap ++ (two ++ post)))))
      × (email_body (build_report locale payload (before ++ (word ++ (gap ++ (one ++ post)))))
          ≡ email_body (build_report locale payload (before ++ (word ++ (gap ++ (two ++ post))))))
unfolding build_report
build_report-hides locale payload before word gap one two post first second h ends fits_one
      fits_two =
    let same_evidence =
      redact-hides before word gap one two post first second h ends fits_one fits_two in
    let reported : Text → Report =
      λ (t : Text). record (build_report locale payload []) { evidence = t } in
    (ap reported same_evidence, ap (λ t. email_body (reported t)) same_evidence)
