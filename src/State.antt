-- ===== src/State.antt =====
-- src/state.ts: the files that remember a session's workspaces, agents and ended conversations. A file
-- is what `#read` gives of it, `{}` when it is missing or does not parse, and each `#write` replaces it.
pub mod Rows
pub mod Removal
pub mod Resumable
mod Tests
use herdr_web_broker.Common.{
  ℕ, String, Bool, true, false, Option, some, none, List, [], ◌∷◌, is_some, or_else, starts_with,
  if◌then◌else◌, length,
}
use herdr_web_broker.Common.Dict.{Dict, lookup, insert, remove}
use Prim.Native.String.{◌++◌ as text_append}

pub record WorkspaceMeta : Type 0 where
  pub cwd : String
  pub label : Option String

pub record AgentMeta : Type 0 where
  pub session_id : Option String
  pub kind : String
  pub started_at : ℕ

-- `Record<string, Record<string, V>>`: session, then workspace, pane or conversation.
abbrev pub Index : Type 0 → Type 0
Index V = Dict (Dict V)

module _ {V : Type 0} where
  -- `data[session] ?? {}`
  abbrev pub rows_of : String → Index V → Dict V
  rows_of session index = or_else (lookup session index) []

  unfoldable pub get : String → String → Index V → Option V
  get session key index = lookup key (rows_of session index)

  -- `(data[session] ??= {})[key] = meta`
  pub set : String → String → V → Index V → Index V
  set session key meta index = insert session (insert key meta (rows_of session index)) index

  -- `delete data[session][key]`, and what was there.
  pub remove_row : String → String → Index V → Index V × Option V
  unfolding get
  remove_row session key index =
      let found = get session key index in
      if is_some found
      then (insert session (remove key (rows_of session index)) index, found)
      else (index, found)

  pub remove_session : String → Index V → Index V
  remove_session session index =
      if is_some (lookup session index) then remove session index else index

  -- The loop over the panes: the rows that go, and those that stay.
  unfoldable rows_under : String → Dict V → List V
  rows_under prefix [] = []
  rows_under prefix ((pane, row) ∷ rows) =
      if starts_with pane prefix then row ∷ rows_under prefix rows else rows_under prefix rows

  unfoldable rows_outside : String → Dict V → Dict V
  rows_outside prefix [] = []
  rows_outside prefix ((pane, row) ∷ rows) =
      if starts_with pane prefix
      then rows_outside prefix rows
      else (pane, row) ∷ rows_outside prefix rows

  -- Nothing is written when no row goes.
  keep_outside : List V → String → Dict V → Index V → Index V × List V
  keep_outside [] session outside index = (index, [])
  keep_outside (row ∷ removed) session outside index = (insert session outside index, row ∷ removed)

  remove_under : Option (Dict V) → String → String → Index V → Index V × List V
  unfolding keep_outside
  remove_under none session prefix index = (index, [])
  remove_under (some rows) session prefix index =
      keep_outside (rows_under prefix rows) session (rows_outside prefix rows) index

  -- `AgentIndex.removeWorkspace`
  pub remove_workspace : String → String → Index V → Index V × List V
  unfolding remove_under
  remove_workspace session workspace_id index =
      remove_under (lookup session index) session (text_append workspace_id ":") index

pub data Call (V : Type 0) : Type 0 where
  sets : (session key : String) → V → Call V
  removes : (session key : String) → Call V
  removes_workspace : (session workspace_id : String) → Call V
  removes_session : (session : String) → Call V

module _ {V : Type 0} where
  pub step : Index V → Call V → Index V
  step index (sets session key meta) = set session key meta index
  step index (removes session key) = (remove_row session key index).0
  step index (removes_workspace session id) = (remove_workspace session id index).0
  step index (removes_session session) = remove_session session index

  pub run : Index V → List (Call V) → Index V
  run index [] = index
  run index (c ∷ cs) = run (step index c) cs
