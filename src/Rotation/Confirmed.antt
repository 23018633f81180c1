-- ===== src/Rotation/Confirmed.antt =====
-- `remove_key`: its result, and the reads behind it.
use postfix_m365_relay.Base.{
  ℕ, zero, suc, ◌≡◌, refl, ap, Bool, true, false, not, ◌==◌, ◌&&◌, List, ◌∷◌, any, same, same_refl,
  arith, if◌then◌else◌, Text, ◌≢◌,
}
use postfix_m365_relay.Credential.Thumbprint.{Credential}
use postfix_m365_relay.Credential.Failure.{ErrorBody}
use postfix_m365_relay.Machine.Types.{
  Outcome, ok, raised, Event, called, graph_default, get_app, post_remove, HttpAnswer, response,
  refused, unreachable, bad_json, Body, error_body, Assertion, History, Machine, Services, Config,
}
use postfix_m365_relay.Machine.Exec.{Exec, emitted, pure, lift}
use postfix_m365_relay.Machine.Files.{Pair}
use postfix_m365_relay.Machine.Actions.{graph, graph_result, key_credentials}
use postfix_m365_relay.Machine.Triple.{
  Triple, Triple-bind, Triple-pure, Triple-if, Triple-before, Triple-after, After, Keeps,
  Keeps-attempt, Keeps-lift,
}
use postfix_m365_relay.Machine.Keeps.{IsStable, sleep-Keeps, token-Keeps, proof-Keeps}
use postfix_m365_relay.Rotation.Removal.{
  lists_key, key_absent, already_gone, accepted, confirm_gone, remove_with, on_token, remove_key,
}

-- Has the removal of this key been asked for?
abbrev asks_removal : Text → Event → Bool
asks_removal key_id (called (post_remove k assertion) answer) = same k key_id
asks_removal key_id _ = false

abbrev pub removal_asked : Text → History → Bool
removal_asked key_id history = any (asks_removal key_id) history

abbrev absent_in : Text → Outcome (List Credential) → Bool
absent_in key_id (ok credentials) = not (lists_key key_id credentials)
absent_in key_id (raised e) = false

-- The last thing that happened is a read, with status 200, of an application that does not list the
-- key; and the removal of the key had been asked for.
abbrev pub confirmed : Text → History → Bool
confirmed key_id (called get_app (response status body) ∷ history) =
    status == 200 && absent_in key_id (key_credentials body) && removal_asked key_id history
confirmed key_id _ = false

abbrev Asked : Text → Machine → Type 0
Asked key_id s = removal_asked key_id s.history ≡ true

Asked-stable : (key_id : Text) → IsStable (Asked key_id)
Asked-stable key_id = record { after = λ e s t h. ground arith }

abbrev pub ConfirmedIf : Text → Bool → Machine → Type 0
ConfirmedIf key_id true s = confirmed key_id s.history ≡ true
ConfirmedIf key_id false s = Unit {0}

abbrev pub Anything : Machine → Type 0
Anything s = Unit {0}

Anything-stable : IsStable Anything
Anything-stable = record { after = λ e s t h. tt }

-- What a read tells, once the loop has looked at it.
abbrev Read : Text → ℕ × Body → Machine → Type 0
Read key_id reply s =
    Asked key_id s × (key_absent key_id reply ≡ ok true → confirmed key_id s.history ≡ true)

read_absent :
    (status : ℕ) (body : Body) (k : Text) (h : History)
    → removal_asked k h ≡ true
    → key_absent k (status, body) ≡ ok true
    → (status == 200 && absent_in k (key_credentials body) && removal_asked k h) ≡ true
read_absent status body k h asked e = ground arith

no_read :
    (status : ℕ) (body : ErrorBody) (k : Text) → key_absent k (status, error_body body) ≢ ok true
unfolding key_credentials
no_read status body k e = ground arith

-- An exception may leave anything.
loosely :
    {A : Type 0} {P : Machine → Type 0} {m : Exec A} → Keeps P m → Triple P m (λ _. P) Anything
loosely t = Triple-after (λ a s h. h) (λ s h. tt) t

looked :
    (key_id : Text) (reply : ℕ × Body)
    → Triple
        (Read key_id reply)
        (lift (key_absent key_id reply))
        (λ gone s. Asked key_id s × (gone ≡ true → confirmed key_id s.history ≡ true))
        Anything
unfolding lift
looked key_id reply = record { run = λ s h. known (key_absent key_id reply) s h }
  where
    known :
        (r : Outcome Bool) (s : Machine)
        → Asked key_id s × (r ≡ ok true → confirmed key_id s.history ≡ true)
        → After
            (λ gone s. Asked key_id s × (gone ≡ true → confirmed key_id s.history ≡ true))
            Anything
            r
            s
    known (ok gone) s h = (h.0, λ e. h.1 (ap ok e))
    known (raised e) s h = tt

module _ (svc : Services) (cfg : Config) where
  graph-Read :
      (key_id bearer : Text)
      → Triple (Asked key_id) (graph svc cfg get_app bearer) (Read key_id) Anything
  unfolding graph
  graph-Read key_id bearer = record {
    run = λ s h. by_answer key_id (svc.graph_endpoint get_app bearer s.history) s h;
  }
    where
      by_answer :
          (k : Text) (a : HttpAnswer) (s : Machine)
          → Asked k s
          → After (Read k) Anything (graph_result a) (emitted (called get_app a) s)
      by_answer k (response status body) s h = (h, λ e. read_absent status body k s.history h e)
      by_answer k (refused status body) s h = (h, λ e. absurd (no_read status body k e))
      by_answer k unreachable s h = tt
      by_answer k bad_json s h = tt

  -- The result of a loop that has asked: either it confirmed, or it says nothing.
  confirm_gone-ConfirmedIf :
      (key_id bearer : Text) (n : ℕ)
      → Triple (Asked key_id) (confirm_gone svc cfg key_id bearer n) (ConfirmedIf key_id) Anything
  unfolding confirm_gone
  confirm_gone-ConfirmedIf key_id bearer zero = Triple-pure false (λ s h. tt)
  confirm_gone-ConfirmedIf key_id bearer (suc n) =
      Triple-bind (loosely (sleep-Keeps (Asked-stable key_id) svc cfg 5)) λ _.
        Triple-bind (graph-Read key_id bearer) λ reply.
          Triple-bind (looked key_id reply)
            λ gone. decide key_id bearer n gone (confirm_gone-ConfirmedIf key_id bearer n)
    where
      decide :
          (key_id bearer : Text) (n : ℕ) (gone : Bool)
          → Triple
              (Asked key_id)
              (confirm_gone svc cfg key_id bearer n)
              (ConfirmedIf key_id)
              Anything
          → Triple
              (λ s. Asked key_id s × (gone ≡ true → confirmed key_id s.history ≡ true))
              (if gone then pure true else confirm_gone svc cfg key_id bearer n)
              (ConfirmedIf key_id)
              Anything
      decide key_id bearer n true ih = Triple-pure true (λ s h. h.1 refl)
      decide key_id bearer n false ih = Triple-before (λ s h. h.0) ih

  -- Posting the removal is what asks for it.
  post-Asked :
      (key_id bearer : Text) (assertion : Assertion)
      → Triple Anything
          (graph svc cfg (post_remove key_id assertion) bearer)
          (λ _. Asked key_id)
          Anything
  unfolding graph
  post-Asked key_id bearer assertion = record {
    run = λ s h. by_answer (svc.graph_endpoint (post_remove key_id assertion) bearer s.history) s;
  }
    where
      by_answer :
          (a : HttpAnswer) (s : Machine)
          → After
              (λ _. Asked key_id)
              Anything
              (graph_result a)
              (emitted (called (post_remove key_id assertion) a) s)
      by_answer (response status body) s = rw (same_refl key_id) refl
      by_answer (refused status body) s = rw (same_refl key_id) refl
      by_answer unreachable s = tt
      by_answer bad_json s = tt

  remove_with-ConfirmedIf :
      (current : Pair) (key_id bearer : Text)
      → Triple Anything (remove_with svc cfg current key_id bearer) (ConfirmedIf key_id) Anything
  unfolding remove_with
  remove_with-ConfirmedIf current key_id bearer =
      Triple-bind (proof-Keeps svc cfg current) λ assertion.
        Triple-bind (post-Asked key_id bearer assertion) λ (status, result).
          Triple-bind (loosely (Keeps-lift (already_gone status result))) λ gone.
            Triple-if (not (accepted svc cfg status) && not gone)
              (λ _. Triple-pure false (λ s h. tt)) (λ _. confirm_gone-ConfirmedIf key_id bearer 12)

  on_token-ConfirmedIf :
      (current : Pair) (key_id : Text) (r : Outcome Text)
      → Triple Anything (on_token svc cfg current key_id r) (ConfirmedIf key_id) Anything
  unfolding on_token
  on_token-ConfirmedIf current key_id (ok bearer) = remove_with-ConfirmedIf current key_id bearer
  on_token-ConfirmedIf current key_id (raised e) = Triple-pure false (λ s h. tt)

  pub remove_key-ConfirmedIf :
      (current : Pair) (key_id : Text)
      → Triple Anything (remove_key svc cfg current key_id) (ConfirmedIf key_id) Anything
  unfolding remove_key
  remove_key-ConfirmedIf current key_id =
      Triple-bind (Keeps-attempt (token-Keeps Anything-stable svc cfg graph_default current))
        λ r. on_token-ConfirmedIf current key_id r

-- A removal that is reported as done ended with a read, of status 200, that does not list the key, and
-- the key's removal had been posted before it: the answer to the removal alone is never believed.
pub remove_key-confirmed :
    (svc : Services) (cfg : Config) (current : Pair) (key_id : Text) (s : Machine)
    → (remove_key svc cfg current key_id s).0 ≡ ok true
    → confirmed key_id (remove_key svc cfg current key_id s).1.history ≡ true
remove_key-confirmed svc cfg current key_id s e =
    rw e at ((remove_key-ConfirmedIf svc cfg current key_id).run s tt)
