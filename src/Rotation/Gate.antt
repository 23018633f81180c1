-- ===== src/Rotation/Gate.antt =====
-- Which keys `--remove-key` may ask Graph to remove.
use postfix_m365_relay.Base.{
  ℕ, ◌≡◌, ◌≢◌, refl, ap, true, false, not, ◌||◌, Option, none, some, List, ◌∷◌, find, same, arith,
  Text, ◌==◌, String,
}
use postfix_m365_relay.Credential.Thumbprint.{Credential}
use postfix_m365_relay.Credential.Owner.{Ownership, live, foreign, unmonitored, classify_credential}
use postfix_m365_relay.Machine.Types.{
  ok, graph_default, get_app, called, response, refused, unreachable, bad_json, error_body,
  HttpAnswer, Event, History, Machine, Services, Config, State, Body,
}
use postfix_m365_relay.Machine.Exec.{Exec, ◌>>=◌, pure, lift, emitted}
use postfix_m365_relay.Machine.Files.{Pair}
use postfix_m365_relay.Machine.Actions.{
  graph, log, read_state, key_credentials, graph_result, or_empty_state,
}
use postfix_m365_relay.Machine.Triple.{
  Triple, Triple-bind, Triple-pure, Triple-before, Triple-after, Triple-if, Triple-fact,
  Triple-lift, Triple-final, After, Keeps, Keeps-bind, Keeps-pure,
}
use postfix_m365_relay.Machine.Keeps.{token-Keeps_of, log-Keeps_of, log-Keeps, IsStable}
use postfix_m365_relay.Rotation.Frame.{remove_key-Keeps}
use postfix_m365_relay.Credential.Failure.{ErrorBody}
use postfix_m365_relay.Rotation.Confirmed.{removal_asked}
use postfix_m365_relay.Rotation.Removal.{
  pending_key, is_falsy, may_remove, remove_classified, remove_target, remove_key_by_hand,
}

no_credentials :
    (body : ErrorBody) (ks : List Credential) → key_credentials (error_body body) ≢ ok ks
unfolding key_credentials
no_credentials body ks e = cc

-- The application was read, with status 200 and this body.
pub data Seen (body : Body) : History → Type 0 where
  here :
      {h : History} {status : ℕ}
      → status ≡ 200
      → Seen body (called get_app (response status body) ∷ h)
  later : {h : History} {e : Event} → Seen body h → Seen body (e ∷ h)

module _ (svc : Services) (cfg : Config) (current : Pair) (key_id : Text)
    (saved : Option State) where
  -- The removal of a key with this verdict is allowed by the flags of the command line.
  pub record IsAllowed (kind : Ownership) : Type 0 where
    pub not_live : kind ≢ live
    pub own : kind ≡ foreign → cfg.yes_other_flag ≡ true
    pub by_flag : kind ≡ unmonitored → (cfg.yes_flag || cfg.yes_other_flag) ≡ true

  -- What a read listed first under this id may be removed, by its verdict.
  pub record IsPermitted (s : Machine) : Type 0 where
    pub body : Body
    pub listing : List Credential
    pub target : Credential
    pub seen : Seen body s.history
    pub listed : key_credentials body ≡ ok listing
    pub found : find (λ c. same c.key_id key_id) listing ≡ some target
    pub allowed : IsAllowed (
        classify_credential target current.cert.digest cfg.instance_id
          (pending_key svc cfg (or_empty_state saved).pending_removal))

  IsPermitted-stable : IsStable IsPermitted
  IsPermitted-stable = record {
    after = λ e s t h. record {
      body = h.body;
      listing = h.listing;
      target = h.target;
      seen = later h.seen;
      listed = h.listed;
      found = h.found;
      allowed = h.allowed;
    };
  }

  -- Nothing has been asked for, and the state file is the one that the run found.
  abbrev Unasked : Machine → Type 0
  Unasked s = (removal_asked key_id s.history ≡ false) × (s.saved ≡ saved)

  -- If the removal has been asked for, it was permitted.
  abbrev Gated : Machine → Type 0
  Gated s = removal_asked key_id s.history ≡ true → IsPermitted s

  of_Unasked : (s : Machine) → Unasked s → Gated s
  of_Unasked s h a = cc

  of_IsPermitted : (s : Machine) → IsPermitted s → Gated s
  of_IsPermitted s h a = h

  -- An action that asks for nothing.
  unasked : {A : Type 0} {m : Exec A} → Keeps Unasked m → Triple Unasked m (λ _. Unasked) Gated
  unasked t = Triple-after (λ a s h. h) of_Unasked t

  logged :
      (outcome : String) (status : ℕ)
      → Keeps Unasked (log svc cfg "remove-key-by-hand" outcome >>= λ _. pure status)
  logged outcome status =
      Keeps-bind (log-Keeps_of svc cfg "remove-key-by-hand" outcome (λ s h. h) (λ s h. h))
        λ _. Keeps-pure status

  ended :
      (outcome : String) (status : ℕ)
      → Triple Unasked
          (log svc cfg "remove-key-by-hand" outcome >>= λ _. pure status)
          (λ _. Gated)
          Gated
  ended outcome status = Triple-after (λ a s h. of_Unasked s h) of_Unasked (logged outcome status)

  may_remove-IsAllowed : (kind : Ownership) → may_remove svc cfg kind ≡ true → IsAllowed kind
  unfolding may_remove
  may_remove-IsAllowed live h = cc
  may_remove-IsAllowed kind h = record {
    not_live = λ e. ground arith;
    own = λ e. ground arith;
    by_flag = λ e. ground arith;
  }

  -- What the read is worth to the lines after it.
  abbrev Read : ℕ × Body → Machine → Type 0
  Read reply s =
      Unasked s
      × ((ks : List Credential)
          → reply.0 ≡ 200
          → key_credentials reply.1 ≡ ok ks
          → Seen reply.1 s.history)

  graph-Read : (bearer : Text) → Triple Unasked (graph svc cfg get_app bearer) Read Gated
  unfolding graph
  graph-Read bearer = record {
    run = λ s h. by_answer (svc.graph_endpoint get_app bearer s.history) s h;
  }
    where
      by_answer :
          (a : HttpAnswer) (s : Machine)
          → Unasked s
          → After Read Gated (graph_result a) (emitted (called get_app a) s)
      by_answer (response status body) s h = (h, λ ks e k. here e)
      by_answer (refused status body) s h = (h, λ ks e k. absurd (no_credentials body ks k))
      by_answer unreachable s h = of_Unasked _ h
      by_answer bad_json s h = of_Unasked _ h

  module _ (body : Body) (listing : List Credential)
      (listed : key_credentials body ≡ ok listing) where
    abbrev Ready : Machine → Type 0
    Ready s = Unasked s × Seen body s.history

    refused_end :
        (outcome : String)
        → Triple {A = ℕ} Ready
            (log svc cfg "remove-key-by-hand" outcome >>= λ _. pure 1)
            (λ _. Gated)
            Gated
    refused_end outcome = Triple-before (λ s h. h.0) (ended outcome 1)

    abbrev verdict : Credential → State → Ownership
    verdict target state =
        classify_credential target current.cert.digest cfg.instance_id
          (pending_key svc cfg state.pending_removal)

    permit :
        (target : Credential)
        → find (λ c. same c.key_id key_id) listing ≡ some target
        → may_remove svc cfg (verdict target (or_empty_state saved)) ≡ true
        → (s : Machine) → Ready s
        → IsPermitted s
    permit target found may s h = record {
      body = body;
      listing = listing;
      target = target;
      seen = h.1;
      listed = listed;
      found = found;
      allowed = may_remove-IsAllowed (verdict target (or_empty_state saved)) may;
    }

    remove_classified-Gated :
        (target : Credential)
        → find (λ c. same c.key_id key_id) listing ≡ some target
        → Triple Ready
            (remove_classified svc cfg current key_id (verdict target (or_empty_state saved)))
            (λ _. Gated)
            Gated
    unfolding remove_classified
    remove_classified-Gated target found =
        Triple-if (may_remove svc cfg (verdict target (or_empty_state saved)))
          (λ may. Triple-before (permit target found may) (
            Triple-after (λ a s h. of_IsPermitted s h) of_IsPermitted
              (Keeps-bind (remove_key-Keeps IsPermitted-stable svc cfg current key_id) λ removed.
                Keeps-bind (log-Keeps IsPermitted-stable svc cfg "remove-key-by-hand" _)
                  λ _. Keeps-pure _)))
          (λ _. refused_end "REFUSED")

    remove_target-Gated :
        (o : Option Credential)
        → find (λ c. same c.key_id key_id) listing ≡ o
        → Triple Ready
            (remove_target svc cfg current key_id (or_empty_state saved) o)
            (λ _. Gated)
            Gated
    unfolding remove_target
    remove_target-Gated none found = Triple-before (λ s h. h.0) (ended "ok" 0)
    remove_target-Gated (some target) found = remove_classified-Gated target found

  read_state-Read :
      (reply : ℕ × Body)
      → Triple
          (Read reply)
          read_state
          (λ state s. Read reply s × (state ≡ or_empty_state saved))
          Gated
  unfolding read_state
  read_state-Read reply = record { run = λ s h. (h, ap or_empty_state h.0.1) }

  reply-Gated :
      (status : ℕ) (body : Body)
      → status ≡ 200
      → Triple
          (Read (status, body))
          (read_state >>= λ state. lift (key_credentials body) >>= λ ks.
            remove_target svc cfg current key_id state (find (λ c. same c.key_id key_id) ks))
          (λ _. Gated)
          Gated
  reply-Gated status body good = Triple-bind (read_state-Read (status, body)) λ state.
      Triple-fact λ same_state.
        Triple-bind (Triple-lift (key_credentials body) (λ s h. of_Unasked s h.0)) λ ks.
          Triple-fact λ listed. rw same_state (
            Triple-before (λ s h. (h.0, h.1 ks good listed))
              (remove_target-Gated body ks listed (find (λ c. same c.key_id key_id) ks) refl))

  remove_key_by_hand-Gated :
      Triple Unasked (remove_key_by_hand svc cfg current key_id) (λ _. Gated) Gated
  unfolding remove_key_by_hand
  remove_key_by_hand-Gated =
      Triple-bind (unasked (token-Keeps_of svc cfg graph_default current (λ r s h. h))) λ bearer.
        Triple-bind (graph-Read bearer) λ (status, body).
          Triple-if (not (status == 200) || is_falsy body)
            (λ _. Triple-before (λ s h. h.0) (Triple-pure 1 of_Unasked))
            (λ seen. reply-Gated status body (ground arith))

-- If `--remove-key` asks Graph to remove a key, then a read of status 200 had listed it, and by the
-- verdict on the first credential of that id it is not live, is another instance's only under
-- --yes-remove-another-instances-cert, and is of unknown origin only under that flag or --yes. The
-- removal had not been asked for before.
pub remove_key_by_hand-IsPermitted :
    (svc : Services) (cfg : Config) (current : Pair) (key_id : Text) (s : Machine)
    → removal_asked key_id s.history ≡ false
    → removal_asked key_id (remove_key_by_hand svc cfg current key_id s).1.history ≡ true
    → IsPermitted svc cfg current key_id s.saved (remove_key_by_hand svc cfg current key_id s).1
remove_key_by_hand-IsPermitted svc cfg current key_id s fresh =
    Triple-final (remove_key_by_hand-Gated svc cfg current key_id s.saved) s (fresh, refl)
