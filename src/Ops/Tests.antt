-- ===== src/Ops/Tests.antt =====
-- A workspace, its agents and the calls on them, and the theorems about them at concrete inputs.
use Prim.Native.String.{◌++◌ as text_append}
use herdr_web_broker.Common.{
  ℕ, String, ◌≡◌, refl, true, ◌&&◌, ◌||◌, some, none, List, [], ◌∷◌, is_some, str_eq, starts_with,
}
use herdr_web_broker.State.{AgentMeta, get}
use herdr_web_broker.Common.Dict.{lookup}
use herdr_web_broker.State.Resumable.{truthy}
use herdr_web_broker.State.Resumable.Kept.{archived_cwd}
use herdr_web_broker.Ops.{World, Result, ok, fail, is_ok, workspace_of}
use herdr_web_broker.Ops.Panes.{Entry}
use herdr_web_broker.Ops.Reap.{cwd_of, reap_workspace_row, close}
use herdr_web_broker.Ops.Reap.Archived.{reap_workspace_row-archives}
use herdr_web_broker.Ops.Reap.Settled.{outlives, not_found, get-close}
use herdr_web_broker.Ops.Workspaces.{Listing, workspace_still_live}
use herdr_web_broker.Owners.{OwnerBinding, by_email}
use herdr_web_broker.Ops.Demolish.{guard_name, Stores, unless, demolish_owned, get-demolish_owned}
use herdr_web_broker.Ops.Stop.{stop_agent}
use herdr_web_broker.Ops.Stop.Left.{is_no, get-stop_agent}

abbrev claude : AgentMeta
claude = record { session_id = some "c1"; kind = "claude"; started_at = 5 }

abbrev world : World
world = record {
  index = ("default", ("w1", record { cwd = "/repo"; label = none }) ∷ []) ∷ [];
  agents =
      ("default", ("w1:p1", claude) ∷ ("w1:p2", record claude { session_id = none }) ∷ []) ∷ [];
  resumable = [];
  ask_locks = [];
}

listed_pane : get "default" "w1:p1" world.agents ≡ some claude
unfolding get lookup
listed_pane = refl

known_cwd : truthy (cwd_of (get "default" "w1" world.index)) ≡ some "/repo"
unfolding get lookup
known_cwd = refl

reap_workspace_row-archives_example :
    archived_cwd (get "default" "c1" (reap_workspace_row "default" "w1" 9 world).0.resumable)
    ≡ some "/repo"
reap_workspace_row-archives_example =
    reap_workspace_row-archives "default" "w1" "w1:p1" "c1" "/repo" claude 9 world listed_pane refl
      refl known_cwd

abbrev gone : Result (Unit {0})
gone = fail "workspace_not_found" "no such workspace"

get-close_example :
    let done = close "default" "w1" gone 9 world in
    (is_ok done.1 ≡ is_ok gone || (not_found gone && is_some (get "default" "w1" world.index)))
    × (get "default" "w1" done.0.index
        ≡ outlives
            (is_ok done.1 && (str_eq "default" "default" && str_eq "w1" "w1"))
            (get "default" "w1" world.index))
    × (get "default" "w1" done.0.agents
        ≡ outlives
            (is_ok done.1
              && (str_eq "default" "default" && starts_with "w1" (text_append "w1" ":")))
            (get "default" "w1" world.agents))
get-close_example = get-close "default" "w1" gone 9 world "default" "w1"

abbrev in_pane : Entry
in_pane = record {
  pane_id = some "w1:p1";
  name = some "lead";
  agent = some "claude";
  agent_status = some "idle";
  interactive_ready = some true;
}

abbrev polls : ℕ → Result (List Entry)
polls attempt = ok (in_pane ∷ [])

abbrev listing : Listing
listing = ok (some [])

get-stop_agent_example :
    let done = stop_agent "default" "w1:p1" polls (ok tt) listing 9 world in
    let reaped = is_ok done.1 && is_no (workspace_still_live listing (workspace_of "w1:p1")) in
    (get "default" "w1" done.0.index
      ≡ outlives
          (reaped && (str_eq "default" "default" && str_eq (workspace_of "w1:p1") "w1"))
          (get "default" "w1" world.index))
    × (get "default" "w1" done.0.agents
        ≡ outlives
            (reaped
                && (str_eq "default" "default"
                    && starts_with "w1" (text_append (workspace_of "w1:p1") ":"))
              || is_ok done.1 && (str_eq "default" "default" && str_eq "w1:p1" "w1"))
            (get "default" "w1" world.agents))
get-stop_agent_example =
    get-stop_agent "default" "w1:p1" 9 world "default" "w1" polls (ok tt) listing

abbrev same : String → String
same s = s

abbrev anns : OwnerBinding
anns = record { email = "ann@x"; session = "u-ann"; token = "phone"; created_at = "t1" }

abbrev anns_world : World
anns_world = record world {
  index = ("u-ann", ("w1", record { cwd = "/repo"; label = none }) ∷ []) ∷ world.index;
}

abbrev stores : Stores
stores = record {
  world = anns_world;
  owners = ("ann@x", anns) ∷ [];
  attached = "default" ∷ "u-ann" ∷ [];
}

-- The session is forgotten although herdr's command to stop it fails.
get-demolish_owned_example :
    let after = (demolish_owned same same (ok none) (λ id. gone) (some 1) none anns stores).0 in
    let ours = is_ok (guard_name "u-ann") in
    let gone_one = ours && str_eq "u-ann" "u-ann" in
    (get "u-ann" "w1" after.world.index ≡ unless gone_one (get "u-ann" "w1" anns_world.index))
    × (get "u-ann" "w1" after.world.agents ≡ unless gone_one (get "u-ann" "w1" anns_world.agents))
    × (get "u-ann" "w1" after.world.resumable
        ≡ unless gone_one (get "u-ann" "w1" anns_world.resumable))
    × (by_email same same "ann@x" after.owners
        ≡ unless (ours && str_eq "ann@x" "ann@x") (by_email same same "ann@x" stores.owners))
get-demolish_owned_example =
    get-demolish_owned same same (ok none) (λ id. gone) (some 1) none anns stores "u-ann" "w1"
      "ann@x"
