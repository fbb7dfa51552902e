-- ===== src/Ops/Demolish.antt =====
-- `demolishOwned` of src/http.ts: a session is torn down with everything the broker holds of it. What herdr
-- answers to `workspace.list` and to each `workspace.close`, and what its commands exit with, are arguments.
use text.Mathlib.Text.{find?}
use herdr_web_broker.Common.{
  ◌||◌, is_some, starts_with, not, ℕ, ◌+◌, ◌≡◌, refl, String, Bool, ◌&&◌, Option, some, none, List,
  [], ◌∷◌, to_ℕ, str_eq, not, filter, if◌then◌else◌,
}
use herdr_web_broker.Common.Dict.{lookup-remove}
use herdr_web_broker.State.{get, rows_of, remove_session}
use herdr_web_broker.State.Rows.{get-remove_session}
use herdr_web_broker.State.Resumable.{truthy}
use herdr_web_broker.Agents.Reconcile.{classify_session}
use herdr_web_broker.Owners.{OwnerBinding, Owners, by_email, unbind}
use herdr_web_broker.Ops.{World, fail, Result, ok, throws, is_ok}
use herdr_web_broker.Ops.Workspaces.{Listed, Listing}

-- What a command exits with; none if it was not run or was killed.
abbrev pub Exit : Type 0
Exit = Option ℕ

-- `#guard(name)` of src/provisioner.ts
unfoldable pub guard_name : String → Result (Unit {0})
guard_name name =
    if not (starts_with name "u-") || (is_some (find? name "/") || is_some (find? name ".."))
    then fail "bad_request" "provisioned sessions live in the u- namespace only"
    else ok tt

-- `stop(name)` of src/provisioner.ts, which does not look at what `session stop` and `session delete` exit with.
unfoldable pub stop_session : Exit → Exit → String → Result (Unit {0})
unfolding guard_name
stop_session stops deletes name = guard_name name

-- The stores, the bindings of emails, and the sessions of the local herdr that the broker knows.
pub record Stores : Type 0 where
  pub world : World
  pub owners : Owners
  pub attached : List String

pub record Report : Type 0 where
  pub torn_down : String
  pub email : String
  pub workspaces_closed : ℕ
  pub unrecognized : List String

abbrev with_id : Option String → List String → List String
with_id none ids = ids
with_id (some id) ids = id ∷ ids

unfoldable pub ids_of : List Listed → List String
ids_of [] = []
ids_of (w ∷ ws) = with_id (truthy w.workspace_id) (ids_of ws)

-- A listing that fails lists nothing.
unfoldable pub live_ids : Listing → List String
unfolding ids_of
live_ids (ok (some ws)) = ids_of ws
live_ids (ok none) = []
live_ids (throws e) = []

-- Every workspace is asked to close, whatever the others answer.
unfoldable pub close_all : (String → Result (Unit {0})) → List String → ℕ
close_all closes [] = 0
close_all closes (id ∷ ids) = to_ℕ (is_ok (closes id)) + close_all closes ids

-- What is found, if it is not gone.
abbrev pub unless {ℓ} : {A : Type ℓ} → Bool → Option A → Option A
unless gone found = if gone then none else found

module _ (canonical : String → String) (session_name_for : String → String) where
  -- `forgetSession`, `owners.remove` and the three `removeSession`.
  unfoldable pub forget_all : OwnerBinding → Stores → Stores
  forget_all binding stores = record {
    world = record stores.world {
      index = remove_session binding.session stores.world.index;
      agents = remove_session binding.session stores.world.agents;
      resumable = remove_session binding.session stores.world.resumable;
    };
    owners = unbind canonical session_name_for binding.email stores.owners;
    attached = filter (λ s. not (str_eq s binding.session)) stores.attached;
  }

  -- What follows the stop; a stop that throws ends it.
  unfoldable pub after_stop :
      Result (Unit {0})
      → Listing
      → (String → Result (Unit {0}))
      → OwnerBinding
      → Stores
      → Stores × Result Report
  unfolding forget_all live_ids close_all
  after_stop (throws e) listing closes binding stores = (stores, throws e)
  after_stop (ok done) listing closes binding stores =
      let live = live_ids listing in
      let known = rows_of binding.session stores.world.index in
      (
        forget_all binding stores,
        ok (record {
          torn_down = binding.session;
          email = binding.email;
          workspaces_closed = close_all closes live;
          unrecognized = (classify_session known live).orphans;
        }),
      )

  -- `demolishOwned(binding)`
  unfoldable pub demolish_owned :
      Listing
      → (String → Result (Unit {0}))
      → Exit
      → Exit
      → OwnerBinding
      → Stores
      → Stores × Result Report
  unfolding after_stop stop_session
  demolish_owned listing closes stops deletes binding stores =
      after_stop (stop_session stops deletes binding.session) listing closes binding stores

  -- What the stores hold of a session, of a key in it and of an email once the stop has ended as `stopped`.
  abbrev HasForgotten :
      Result (Unit {0}) → OwnerBinding → Stores → Stores → String → String → String → Type 0
  HasForgotten stopped binding stores after session key email =
      let gone = is_ok stopped && str_eq binding.session session in
      (get session key after.world.index ≡ unless gone (get session key stores.world.index))
      × (get session key after.world.agents ≡ unless gone (get session key stores.world.agents))
      × (get session key after.world.resumable
          ≡ unless gone (get session key stores.world.resumable))
      × (by_email canonical session_name_for email after.owners
          ≡ unless (is_ok stopped && str_eq (canonical binding.email) (canonical email))
              (by_email canonical session_name_for email stores.owners))

  after_stop-HasForgotten :
      (stopped : Result (Unit {0})) (listing : Listing) (closes : String → Result (Unit {0}))
      (binding : OwnerBinding) (stores : Stores) (session key email : String)
      → HasForgotten stopped binding stores
          (after_stop stopped listing closes binding stores).0
          session
          key
          email
  unfolding after_stop forget_all by_email unbind
  after_stop-HasForgotten (throws e) listing closes binding stores session key email =
      (refl, refl, refl, refl)
  after_stop-HasForgotten (ok done) listing closes binding stores session key email =
      let w = stores.world in
      (
        get-remove_session session key binding.session w.index,
        get-remove_session session key binding.session w.agents,
        get-remove_session session key binding.session w.resumable,
        lookup-remove (canonical binding.email) (canonical email) stores.owners,
      )

  -- The demolition of a session with a name that the broker gives leaves nothing of it: no workspace, agent
  -- or conversation, and no owner of its email, whatever herdr answers about its workspaces and whatever its
  -- commands exit with. Other sessions and emails keep theirs. For a session with any other name every row
  -- and owner is kept.
  pub get-demolish_owned :
      (listing : Listing) (closes : String → Result (Unit {0})) (stops deletes : Exit)
      (binding : OwnerBinding) (stores : Stores) (session key email : String)
      → let after = (demolish_owned listing closes stops deletes binding stores).0 in
        let ours = is_ok (guard_name binding.session) in
        let gone = ours && str_eq binding.session session in
        (get session key after.world.index ≡ unless gone (get session key stores.world.index))
        × (get session key after.world.agents ≡ unless gone (get session key stores.world.agents))
        × (get session key after.world.resumable
            ≡ unless gone (get session key stores.world.resumable))
        × (by_email canonical session_name_for email after.owners
            ≡ unless
                (ours && str_eq (canonical binding.email) (canonical email))
                (by_email canonical session_name_for email stores.owners))
  unfolding demolish_owned stop_session
  get-demolish_owned listing closes stops deletes binding stores session key email =
      after_stop-HasForgotten (guard_name binding.session) listing closes binding stores session key
        email
