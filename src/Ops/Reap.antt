-- ===== src/Ops/Reap.antt =====
-- `reapWorkspaceRow`, `broker.workspace.close` and `broker.worktree.remove` of src/workspace-ops.ts.
-- `now` is the time in ms at which the loop of the reaping runs.
pub mod Archived
pub mod Settled
use herdr_web_broker.Common.{
  ℕ, String, Bool, true, false, ◌&&◌, Option, some, none, List, [], ◌∷◌, is_some, if◌then◌else◌,
}
use herdr_web_broker.State.{Index, WorkspaceMeta, AgentMeta, get, remove_row, remove_workspace}
use herdr_web_broker.State.Resumable.{ResumableMeta, record_ended}
use herdr_web_broker.Ops.{World, Thrown, Result, ok, throws, has_code}

abbrev pub cwd_of : Option WorkspaceMeta → Option String
cwd_of none = none
cwd_of (some row) = some row.cwd

abbrev pub label_of : Option WorkspaceMeta → Option String
label_of none = none
label_of (some row) = row.label

-- The loop over the rows that `removeWorkspace` gives back.
unfoldable pub record_all :
    String → Option WorkspaceMeta → ℕ → List AgentMeta → Index ResumableMeta → Index ResumableMeta
record_all session row now [] ended = ended
record_all session row now (m ∷ removed) ended =
    record_all session row now removed
      (record_ended session m (cwd_of row) (label_of row) now ended)

-- `reapWorkspaceRow(deps, session, workspaceId)`
pub reap_workspace_row : String → String → ℕ → World → World × Bool
reap_workspace_row session id now w =
    let row = get session id w.index in
    let gone = remove_workspace session id w.agents in
    (
      record w {
        index = (remove_row session id w.index).0;
        agents = gone.0;
        resumable = record_all session row now gone.1 w.resumable;
      },
      is_some row,
    )

pub record Closed : Type 0 where
  pub workspace_id : String
  pub closed : Bool
  pub already_closed : Bool

abbrev pub closed_as : String → Bool → Closed
closed_as id already = record { workspace_id = id; closed = true; already_closed = already }

-- `broker.workspace.close`, once herdr's `workspace.close` has answered.
pub close : String → String → Result (Unit {0}) → ℕ → World → World × Result Closed
unfolding reap_workspace_row
close session id (ok answer) now w =
    ((reap_workspace_row session id now w).0, ok (closed_as id false))
close session id (throws e) now w =
    if has_code "workspace_not_found" e && is_some (get session id w.index)
    then ((reap_workspace_row session id now w).0, ok (closed_as id true))
    else (w, throws e)

pub record Removed : Type 0 where
  pub workspace_id : String
  pub removed : Bool
  pub path : Option String

-- `broker.worktree.remove`, once herdr's `worktree.remove` has answered, with the path if that is a text.
pub remove_worktree : String → String → Result (Option String) → World → World × Result Removed
remove_worktree session id (throws e) w = (w, throws e)
remove_worktree session id (ok path) w = (
  record w {
    index = (remove_row session id w.index).0;
    agents = (remove_workspace session id w.agents).0;
  },
  ok (record { workspace_id = id; removed = true; path = path }),
)
