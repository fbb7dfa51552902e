-- ===== src/Ops/Stop.antt =====
-- `stopAgent` of src/workspace-ops.ts. `closed` is what `pane.close` answers, and `listing` what
-- `workspace.list` answers after it; the writes of the indexes do not fail.
pub mod Left
use herdr_web_broker.Common.{
  ℕ, String, Bool, true, false, Option, some, none, List, [], ◌∷◌, if◌then◌else◌,
}
use herdr_web_broker.State.{Index, WorkspaceMeta, AgentMeta, get, remove_row}
use herdr_web_broker.State.Resumable.{ResumableMeta, record_ended}
use herdr_web_broker.Ops.{World, Result, ok, throws, workspace_of}
use herdr_web_broker.Ops.Panes.{Entry, agent_in_pane, target_of}
use herdr_web_broker.Ops.Reap.{cwd_of, label_of, reap_workspace_row}
use herdr_web_broker.Ops.Workspaces.{Listing, workspace_still_live}

unfoldable record_if :
    Option AgentMeta → String → Option WorkspaceMeta → ℕ → Index ResumableMeta → Index ResumableMeta
record_if none session row now ended = ended
record_if (some m) session row now ended =
    record_ended session m (cwd_of row) (label_of row) now ended

-- The agent's row goes, and its conversation is archived.
unfoldable pub end_agent : String → String → ℕ → World → World
unfolding record_if
end_agent session pane now w =
    let gone = remove_row session pane w.agents in
    record w {
      agents = gone.0;
      resumable =
          record_if gone.1 session (get session (workspace_of pane) w.index) now w.resumable;
    }

-- Only a definite no of herdr reaps the workspace.
unfoldable pub reap_if : Option Bool → String → String → ℕ → World → World
reap_if (some false) session id now w = (reap_workspace_row session id now w).0
reap_if (some true) session id now w = w
reap_if none session id now w = w

pub record Stopped : Type 0 where
  pub pane_id : String
  pub agent : String
  pub kind : String

-- From `pane.close` on.
unfoldable stop_occupant :
    String
    → String
    → String × Entry
    → Result (Unit {0})
    → Listing
    → ℕ
    → World
    → World × Result Stopped
unfolding end_agent reap_if
stop_occupant session pane occupant (throws e) listing now w = (w, throws e)
stop_occupant session pane (kind, entry) (ok answer) listing now w =
    let id = workspace_of pane in
    (
      reap_if (workspace_still_live listing id) session id now (end_agent session pane now w),
      ok (record { pane_id = pane; agent = target_of kind entry; kind = kind }),
    )

unfoldable stop_found :
    String
    → String
    → Result (String × Entry)
    → Result (Unit {0})
    → Listing
    → ℕ
    → World
    → World × Result Stopped
unfolding stop_occupant
stop_found session pane (throws e) closed listing now w = (w, throws e)
stop_found session pane (ok occupant) closed listing now w =
    stop_occupant session pane occupant closed listing now w

-- `stopAgent(deps, session, p)`
pub stop_agent :
    String
    → String
    → (ℕ → Result (List Entry))
    → Result (Unit {0})
    → Listing
    → ℕ
    → World
    → World × Result Stopped
unfolding stop_found
stop_agent session pane polls closed listing now w =
    stop_found session pane (agent_in_pane polls pane) closed listing now w
