-- ===== src/Rotation/Removal.antt =====
-- `remove_key`, and `--remove-key`: one key credential is removed, and the removal is confirmed.
use postfix_m365_relay.Base.{
  ℕ, zero, suc, Bool, true, false, not, ◌&&◌, ◌||◌, Option, none, some, List, [], ◌==◌, same, any,
  find, if◌then◌else◌, Text,
}
use postfix_m365_relay.Credential.Thumbprint.{Credential}
use postfix_m365_relay.Credential.Failure.{remove_key_already_gone}
use postfix_m365_relay.Credential.Owner.{Ownership, live, foreign, unmonitored, classify_credential}
use postfix_m365_relay.Machine.Types.{
  empty_object, attribute_error, Outcome, ok, raised, graph_default, get_app, post_remove, Body,
  empty_body, error_body, Services, Config, PendingRemoval, State,
}
use postfix_m365_relay.Credential.Failure.{plain}
use postfix_m365_relay.Machine.Exec.{Exec, pure, lift, attempt, ◌>>=◌, ◌>>◌}
use postfix_m365_relay.Machine.Files.{Pair}
use postfix_m365_relay.Machine.Actions.{
  sleep, log, token, proof, graph, key_credentials, error_of, read_state,
}

-- `any(k["keyId"] == key_id for k in app.get("keyCredentials", []))`
abbrev pub lists_key : Text → List Credential → Bool
lists_key key_id credentials = any (λ c. same c.key_id key_id) credentials

-- A status of 200 makes the loop look at the body.
abbrev pub key_absent : Text → ℕ × Body → Outcome Bool
key_absent key_id (status, body) =
    if status == 200
    then elim (key_credentials body) [
      | ok ks ↦ ok (not (lists_key key_id ks))
      | raised e ↦ raised e
    ]
    else ok false

abbrev pub already_gone : ℕ → Body → Outcome Bool
already_gone status body = elim (remove_key_already_gone status (error_of body)) [
  | none ↦ raised attribute_error
  | some gone ↦ ok gone
]

-- `not app`, of what a GET returned
abbrev pub is_falsy : Body → Bool
is_falsy empty_body = true
is_falsy empty_object = true
is_falsy (error_body (plain [])) = true
is_falsy _ = false

module _ (svc : Services) (cfg : Config) where
  -- The loop of reads, with the rounds that are left.
  unfoldable pub confirm_gone : Text → Text → ℕ → Exec Bool
  confirm_gone key_id bearer zero = pure false
  confirm_gone key_id bearer (suc rounds) = do
    sleep svc cfg 5
    reply ← graph svc cfg get_app bearer
    gone ← lift (key_absent key_id reply)
    if gone then pure true else confirm_gone key_id bearer rounds

  abbrev pub accepted : ℕ → Bool
  accepted status = status == 200 || status == 204

  unfoldable pub remove_with : Pair → Text → Text → Exec Bool
  remove_with current key_id bearer = do
    assertion ← proof svc cfg current
    (status, result) ← graph svc cfg (post_remove key_id assertion) bearer
    gone ← lift (already_gone status result)
    if not (accepted status) && not gone then pure false else confirm_gone key_id bearer 12

  unfoldable pub on_token : Pair → Text → Outcome Text → Exec Bool
  on_token current key_id (ok bearer) = remove_with current key_id bearer
  on_token current key_id (raised e) = pure false

  unfoldable pub remove_key : Pair → Text → Exec Bool
  unfolding confirm_gone remove_with on_token
  remove_key current key_id = do
    bearer ← attempt (token svc cfg graph_default current)
    on_token current key_id bearer

  abbrev pub pending_key : Option PendingRemoval → Option Text
  pending_key none = none
  pending_key (some pending) = some pending.key_id

  -- May a key of this class be removed by hand, under the flags of the command line?
  unfoldable pub may_remove : Ownership → Bool
  may_remove live = false
  may_remove foreign = cfg.yes_other_flag
  may_remove unmonitored = cfg.yes_flag || cfg.yes_other_flag
  may_remove _ = true

  abbrev pub status_of : Bool → ℕ
  status_of removed = if removed then 0 else 1

  unfoldable pub remove_classified : Pair → Text → Ownership → Exec ℕ
  remove_classified current key_id kind =
      if may_remove kind
      then (do
        removed ← remove_key current key_id
        log svc cfg "remove-key-by-hand" (if removed then "ok" else "FAILED")
        pure (status_of removed))
      else (do log svc cfg "remove-key-by-hand" "REFUSED"; pure 1)

  unfoldable pub remove_target : Pair → Text → State → Option Credential → Exec ℕ
  remove_target current key_id state none = do log svc cfg "remove-key-by-hand" "ok"; pure 0
  remove_target current key_id state (some target) = remove_classified current key_id (
      classify_credential target current.cert.digest cfg.instance_id
        (pending_key state.pending_removal))

  -- `--remove-key KEY_ID`
  unfoldable pub remove_key_by_hand : Pair → Text → Exec ℕ
  unfolding remove_target remove_classified
  remove_key_by_hand current key_id = do
    bearer ← token svc cfg graph_default current
    (status, body) ← graph svc cfg get_app bearer
    if not (status == 200) || is_falsy body then pure 1 else do
      state ← read_state
      credentials ← lift (key_credentials body)
      remove_target current key_id state (find (λ c. same c.key_id key_id) credentials)
