-- ===== src/Ops/Workspaces.antt =====
-- `herdrWorkspaces`, `workspaceStillLive`, `lookupCwd` and `resolveCwd` of src/workspace-ops.ts. The
-- answer of `workspace.list` is none where it has no array of workspaces.
pub mod Live
use herdr_web_broker.Common.{
  String, Bool, Option, some, none, List, [], ◌∷◌, any, opt_eq, or_option,
}
use herdr_web_broker.Common.Dict.{Dict, lookup, insert}
use herdr_web_broker.State.{Index, WorkspaceMeta, get}
use herdr_web_broker.State.Resumable.{truthy}
use herdr_web_broker.Ops.{Result, ok, throws, fail}
use herdr_web_broker.Ops.Reap.{cwd_of}

-- An element of `workspaces`; a field is there if it is a text.
pub record Listed : Type 0 where
  pub workspace_id : Option String
  pub cwd : Option String
  pub label : Option String

pub record HerdrWorkspace : Type 0 where
  pub cwd : Option String
  pub label : Option String

abbrev pub Listing : Type 0
Listing = Result (Option (List Listed))

unfoldable add_listed : Option String → Listed → Dict HerdrWorkspace → Dict HerdrWorkspace
add_listed none w out = out
add_listed (some id) w out = insert id (record { cwd = w.cwd; label = w.label }) out

-- The loop over `res.workspaces`.
unfoldable add_all : List Listed → Dict HerdrWorkspace → Dict HerdrWorkspace
unfolding add_listed
add_all [] out = out
add_all (w ∷ ws) out = add_all ws (add_listed w.workspace_id w out)

pub herdr_workspaces : Listing → Dict HerdrWorkspace
unfolding add_all
herdr_workspaces (ok (some ws)) = add_all ws []
herdr_workspaces (ok none) = []
herdr_workspaces (throws e) = []

-- `undefined`, no opinion, is none.
unfoldable pub workspace_still_live : Listing → String → Option Bool
workspace_still_live (ok (some ws)) id = some (any (λ w. opt_eq w.workspace_id (some id)) ws)
workspace_still_live (ok none) id = none
workspace_still_live (throws e) id = none

abbrev pub herdr_cwd : Option HerdrWorkspace → Option String
herdr_cwd none = none
herdr_cwd (some w) = w.cwd

unfoldable pub lookup_cwd : Listing → String → String → Index WorkspaceMeta → Option String
unfolding herdr_workspaces
lookup_cwd listing session id index =
    or_option (herdr_cwd (lookup id (herdr_workspaces listing))) (cwd_of (get session id index))

abbrev found_cwd : Option String → Result String
found_cwd none = fail "unknown_workspace" "no recorded cwd"
found_cwd (some cwd) = ok cwd

-- An empty text is no directory.
pub resolve_cwd : Listing → String → String → Index WorkspaceMeta → Result String
unfolding lookup_cwd
resolve_cwd listing session id index = found_cwd (truthy (lookup_cwd listing session id index))
