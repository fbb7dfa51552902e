-- ===== src/Ops/Stop/Left.antt =====
-- `stopAgent` of src/workspace-ops.ts: what a stop leaves.
use Prim.Native.String.{◌++◌ as text_append}
use herdr_web_broker.Common.{
  ℕ, ◌≡◌, refl, String, Bool, true, false, ◌&&◌, ◌||◌, Option, some, none, List, ◌∙◌, str_eq,
  starts_with, if◌then◌else◌,
}
use herdr_web_broker.State.{get}
use herdr_web_broker.State.Removal.{get-remove_row}
use herdr_web_broker.Ops.{World, Result, ok, throws, is_ok, workspace_of}
use herdr_web_broker.Ops.Panes.{Entry, agent_in_pane}
use herdr_web_broker.Ops.Reap.Settled.{outlives, get-reap}
use herdr_web_broker.Ops.Workspaces.{Listing, workspace_still_live}
use herdr_web_broker.Ops.Stop.{end_agent, reap_if, stop_occupant, stop_found, stop_agent}

abbrev pub is_no : Option Bool → Bool
is_no none = false
is_no (some live) = if live then false else true

module _ (session pane : String) (now : ℕ) (w : World) (other key : String) where
  abbrev pub under : Bool
  under = str_eq session other && starts_with key (text_append (workspace_of pane) ":")

  get-reap_if :
      (live : Option Bool) (v : World)
      → let left = reap_if live session (workspace_of pane) now v in
        (get other key left.index
          ≡ outlives
              (is_no live && (str_eq session other && str_eq (workspace_of pane) key))
              (get other key v.index))
        × (get other key left.agents ≡ outlives (is_no live && under) (get other key v.agents))
  unfolding reap_if
  get-reap_if none v = (refl, refl)
  get-reap_if (some true) v = (refl, refl)
  get-reap_if (some false) v = get-reap session (workspace_of pane) now v other key

  get-end_agent :
      let left = end_agent session pane now w in
      (get other key left.index ≡ get other key w.index)
      × (get other key left.agents
          ≡ outlives (str_eq session other && str_eq pane key) (get other key w.agents))
  unfolding end_agent
  get-end_agent = (refl, get-remove_row other key session pane w.agents)

  outlives_twice :
      {V : Type 0} (a b : Bool) (row : Option V)
      → outlives a (outlives b row) ≡ outlives (a || b) row
  outlives_twice true b row = refl
  outlives_twice false b row = refl

  get-stop_found :
      (found : Result (String × Entry)) (closed : Result (Unit {0})) (listing : Listing)
      → let done = stop_found session pane found closed listing now w in
        let reaped = is_ok done.1 && is_no (workspace_still_live listing (workspace_of pane)) in
        (get other key done.0.index
          ≡ outlives
              (reaped && (str_eq session other && str_eq (workspace_of pane) key))
              (get other key w.index))
        × (get other key done.0.agents
            ≡ outlives
                (reaped && under || is_ok done.1 && (str_eq session other && str_eq pane key))
                (get other key w.agents))
  unfolding stop_found stop_occupant
  get-stop_found (throws e) closed listing = (refl, refl)
  get-stop_found (ok occupant) (throws e) listing = (refl, refl)
  get-stop_found (ok occupant) (ok answer) listing =
      let live = workspace_still_live listing (workspace_of pane) in
      let after = get-reap_if live (end_agent session pane now w) in
      (
        after.0 ∙ rw get-end_agent.0 refl,
        after.1
            ∙ rw get-end_agent.1 (
                outlives_twice (is_no live && under) (str_eq session other && str_eq pane key)
                  (get other key w.agents)),
      )

  -- A stop that succeeds ends the row of its pane and, exactly if herdr answers that the pane's workspace
  -- is gone, the rows of that workspace and of its panes; a stop that fails, and an answer of herdr that
  -- says nothing, end no other row.
  pub get-stop_agent :
      (polls : ℕ → Result (List Entry)) (closed : Result (Unit {0})) (listing : Listing)
      → let done = stop_agent session pane polls closed listing now w in
        let reaped = is_ok done.1 && is_no (workspace_still_live listing (workspace_of pane)) in
        (get other key done.0.index
          ≡ outlives
              (reaped && (str_eq session other && str_eq (workspace_of pane) key))
              (get other key w.index))
        × (get other key done.0.agents
            ≡ outlives
                (reaped && under || is_ok done.1 && (str_eq session other && str_eq pane key))
                (get other key w.agents))
  unfolding stop_agent
  get-stop_agent polls closed listing = get-stop_found (agent_in_pane polls pane) closed listing
