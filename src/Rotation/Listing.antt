-- ===== src/Rotation/Listing.antt =====
-- `--list-keys`: the verdict on every key of the app registration, and the keys that it offers for removal.
use postfix_m365_relay.Base.{
  none, ◌||◌, ◌==◌, not, if◌then◌else◌, some, sym, ◌≢◌, ◌≡◌, Option, true, [], Bool, ◌∷◌, Text,
  false, List, Memᴰ, refl,
}
use postfix_m365_relay.Machine.Exec.{lift, pure, ◌>>=◌}
use postfix_m365_relay.Machine.Files.{Pair}
use mathlib.Core.List.Memᴰ.{head, tail}
use postfix_m365_relay.Credential.Owner.{
  unmonitored, foreign, retiring, stamp_of, superseded, live, classify_credential, Ownership,
}
use postfix_m365_relay.Machine.Types.{get_app, graph_default, State, Config, Services}
use postfix_m365_relay.Credential.Thumbprint.{credential_thumbprint, Credential}
use postfix_m365_relay.Machine.Exec.{Exec}
use postfix_m365_relay.Rotation.Removal.{is_falsy, pending_key}
use postfix_m365_relay.Credential.Owner.Verdict.{superseded-owned}
use postfix_m365_relay.Machine.Actions.{key_credentials, read_state, graph, token}

-- What is printed, less the text: the keys that are offered for removal, and whether a key belongs to
-- somebody else.
pub record Listing : Type 0 where
  pub removable : List Text
  pub seen_foreign : Bool

abbrev pub note : Ownership → Text → Listing → Listing
note live key_id rest = rest
note retiring key_id rest = rest
note superseded key_id rest = record rest { removable = key_id ∷ rest.removable }
note foreign key_id rest = record rest { seen_foreign = true }
note unmonitored key_id rest = record rest { seen_foreign = true }

-- The loop over `keyCredentials`.
unfoldable pub list_credentials : (Credential → Ownership) → List Credential → Listing
list_credentials verdict [] = record { removable = []; seen_foreign = false }
list_credentials verdict (c ∷ cs) = note (verdict c) c.key_id (list_credentials verdict cs)

module _ (svc : Services) (cfg : Config) where
  abbrev pub verdict_of : Pair → State → Credential → Ownership
  verdict_of current state c =
      classify_credential c current.cert.digest cfg.instance_id
        (pending_key svc cfg state.pending_removal)

  -- none is the exit status 1.
  unfoldable pub list_keys : Pair → Exec (Option Listing)
  list_keys current = do
    bearer ← token svc cfg graph_default current
    (status, body) ← graph svc cfg get_app bearer
    if not (status == 200) || is_falsy body then pure none else do
      state ← read_state
      credentials ← lift (key_credentials body)
      pure (some (list_credentials (verdict_of current state) credentials))

  -- A key of this instance by its stamp, that is not the live one and not the one that is retiring.
  pub record IsOwn (current : Pair) (state : State) (key_id : Text) (credentials : List Credential)
      : Type 0 where
    pub key : Credential
    pub listed : Memᴰ key credentials
    pub named : key.key_id ≡ key_id
    pub mine : (stamp_of key ≡ cfg.instance_id) × (cfg.instance_id ≢ [])
    pub not_live : current.cert.digest ≢ [] → credential_thumbprint key ≢ current.cert.digest
    pub not_retiring : key_id ≢ [] → pending_key svc cfg state.pending_removal ≢ some key_id

  module _ (current : Pair) (state : State) where
    later :
        (key_id : Text) (c : Credential) (cs : List Credential)
        → IsOwn current state key_id cs
        → IsOwn current state key_id (c ∷ cs)
    later key_id c cs h = record {
      key = h.key;
      listed = tail h.listed;
      named = h.named;
      mine = h.mine;
      not_live = h.not_live;
      not_retiring = h.not_retiring;
    }

    first :
        (key_id : Text) (c : Credential) (cs : List Credential)
        → key_id ≡ c.key_id
        → verdict_of current state c ≡ superseded
        → IsOwn current state key_id (c ∷ cs)
    first key_id c cs e h =
        let own =
          superseded-owned c current.cert.digest cfg.instance_id
            (pending_key svc cfg state.pending_removal) h in
        record {
          key = c;
          listed = head refl;
          named = sym e;
          mine = (own.0, own.1);
          not_live = own.2;
          not_retiring = rw e own.3;
        }

    noted :
        (key_id : Text) (c : Credential) (cs : List Credential) (rest : Listing)
        → (Memᴰ key_id rest.removable → IsOwn current state key_id cs)
        → (o : Ownership) → verdict_of current state c ≡ o
        → Memᴰ key_id (note o c.key_id rest).removable
        → IsOwn current state key_id (c ∷ cs)
    noted key_id c cs rest ih live e m = later key_id c cs (ih m)
    noted key_id c cs rest ih retiring e m = later key_id c cs (ih m)
    noted key_id c cs rest ih foreign e m = later key_id c cs (ih m)
    noted key_id c cs rest ih unmonitored e m = later key_id c cs (ih m)
    noted key_id c cs rest ih superseded e (head i) = first key_id c cs i e
    noted key_id c cs rest ih superseded e (tail m) = later key_id c cs (ih m)

    -- Every key that --list-keys offers for removal is in the list that Graph returned, is this
    -- instance's own by its stamp, is not the live one, and is not the one whose removal is scheduled.
    pub list_credentials-IsOwn :
        (credentials : List Credential) (key_id : Text)
        → Memᴰ key_id (list_credentials (verdict_of current state) credentials).removable
        → IsOwn current state key_id credentials
    unfolding list_credentials
    list_credentials-IsOwn [] key_id m = elim m [ ]
    list_credentials-IsOwn (c ∷ cs) key_id m =
        noted key_id c cs (list_credentials (verdict_of current state) cs)
          (λ k. list_credentials-IsOwn cs key_id k) (verdict_of current state c) refl m
