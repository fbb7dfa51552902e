-- ===== src/Ops/Spawn.antt =====
-- The body of `spawn` of src/workspace-ops.ts, once its parameters are checked. What herdr answers in the
-- course of it is a record of answers; the env, the CLI's own config and its trust are not modelled.
pub mod Rows
mod Tests
use Prim.Native.String.{String}
use text.Mathlib.Text.{find?}
use herdr_web_broker.Common.{
  ℕ, Bool, true, false, not, ◌&&◌, Option, some, none, List, [], ◌∷◌, ◌++◌, ltb, is_some, or_else,
  or_option, if◌then◌else◌,
}
use herdr_web_broker.State.{AgentMeta, WorkspaceMeta, Index, set}
use herdr_web_broker.State.Resumable.{truthy}
use herdr_web_broker.Access.Errors.{BrokerError}
use herdr_web_broker.Ops.{
  World, Thrown, broker, Result, ok, throws, fail, as_broker_error, workspace_of, ◌>>=◌,
}
use herdr_web_broker.Ops.Panes.{Entry}
use herdr_web_broker.Ops.Resume.{CliProfile, ResumeTarget, render_resume}
use herdr_web_broker.Ops.Placement.{Plan, Branch, directory_for}
use herdr_web_broker.Ops.Launch.{
  Start, started, failed, out_of_fuel, Naming, start_agent, pane_name, settles, banner,
}

-- What herdr, the env and the clock answer in the course of a spawn.
pub record Answers : Type 0 where
  -- the pane of `pane.split`, `worktree.create` or `workspace.create`, and the checkout's path
  pub made : Result (Option String × Option String)
  -- `awaitShellReady`, with the send of the env
  pub ready : Result (Unit {0})
  pub starts : ℕ → String → Result (Unit {0})
  pub lists : ℕ → Result (List Entry)
  pub screen : String
  pub now : ℕ
  pub minted_id : String

pub record Config : Type 0 where
  pub busy_retries : ℕ
  pub settle_ms : Option ℕ

pub record Spawned : Type 0 where
  pub workspace_id : String
  pub pane_id : String
  pub agent : String
  pub worktree : Option (String × String)

-- `new BrokerError(code, message, { ...details, workspace_id, pane_id })`
abbrev pub with_ids : String → String → BrokerError → BrokerError
with_ids id pane e = record {
  code = e.code;
  message = e.message;
  details = e.details ++ ("workspace_id", id) ∷ ("pane_id", pane) ∷ [];
}

abbrev pub failing : String → String → String → Thrown
failing code id pane =
    broker (with_ids id pane (record { code = code; message = ""; details = [] }))

-- The pane that was made, if it has a workspace in its id.
abbrev pub pane_of : Option String → Option String
pane_of none = none
pane_of (some pane) = if is_some (find? pane ":") then some pane else none

abbrev pub workspace_for : Option String → String → String
workspace_for none pane = workspace_of pane
workspace_for (some id) pane = id

-- A workspace that is joined has its row already.
abbrev pub indexed : Option String → String → String → WorkspaceMeta → World → World
indexed none session pane meta w = record w { index = set session (workspace_of pane) meta w.index }
indexed (some id) session pane meta w = w

abbrev pub pinned : Option CliProfile → String → Option String
pinned none id = none
pinned (some p) id = elim p.pin_flag [ none ↦ none | some flag ↦ some id ]

-- The arguments of the CLI: the caller's, the pinned session id, and the conversation to resume.
unfoldable pub launch_args : Option CliProfile → String → Plan → List String
launch_args profile id plan =
    or_else plan.args []
    ++ ((elim profile [
      | none ↦ []
      | some p ↦ elim p.pin_flag [ none ↦ [] | some flag ↦ flag ∷ id ∷ [] ]
    ])
        ++ (elim plan.target [
          | none ↦ []
          | some t ↦ render_resume t.syntax t.reference.session_id
        ]))

abbrev ready_stage : String → String → Result (Unit {0}) → Result (Unit {0})
ready_stage id pane (ok sent) = ok tt
ready_stage id pane (throws t) = throws (broker (with_ids id pane (as_broker_error t)))

abbrev start_stage : String → String → Start → Result String
start_stage id pane (started name) = ok name
start_stage id pane (failed e) = throws (broker (with_ids id pane e))
start_stage id pane out_of_fuel = throws (failing "upstream_error" id pane)

abbrev settle_of : Config → Option CliProfile → ℕ
settle_of config none = or_else config.settle_ms 2500
settle_of config (some p) = or_else (or_option config.settle_ms p.settle_ms) 2500

abbrev settle_stage : String → String → ℕ → (ℕ → Result (List Entry)) → Result (Unit {0})
settle_stage id pane settle_ms lists =
    if ltb 0 settle_ms && not (settles lists pane settle_ms)
    then throws (failing "upstream_error" id pane)
    else ok tt

abbrev markers_of : Option CliProfile → List String
markers_of none = []
markers_of (some p) = p.unauthenticated

abbrev login_stage : String → String → Option String → Result (Unit {0})
login_stage id pane none = ok tt
login_stage id pane (some hit) = throws (failing "agent_unauthenticated" id pane)

-- What has to hold before an agent is recorded: the shell is ready, the agent has started, it stays
-- ready, and it shows no banner.
unfoldable pub launched :
    Option CliProfile → Config → Plan → Option String → String → String → Answers → Result String
launched profile config plan name id pane a = do
  let naming : Naming = record {
    explicit = is_some name;
    kind = plan.kind;
    fallback = pane_name plan.kind pane;
  }
  ready ← ready_stage id pane a.ready
  started_as ← start_stage id pane (start_agent a.starts config.busy_retries naming name)
  settled ← settle_stage id pane (settle_of config profile) a.lists
  login ← login_stage id pane (banner (markers_of profile) a.screen)
  ok started_as

abbrev worktree_of : Option Branch → String → Option (String × String)
worktree_of none dir = none
worktree_of (some b) dir = some (b.branch, dir)

unfoldable pub record_agent :
    Option CliProfile
    → String
    → String
    → String
    → Plan
    → String
    → Answers
    → Result String
    → World
    → World × Result Spawned
record_agent profile session id pane plan dir a (throws e) w = (w, throws e)
record_agent profile session id pane plan dir a (ok name) w = (
  record w {
    agents =
        set session pane
          (record { session_id = pinned profile a.minted_id; kind = plan.kind; started_at = a.now })
          w.agents;
  },
  ok (record {
    workspace_id = id;
    pane_id = pane;
    agent = name;
    worktree = worktree_of plan.branch dir;
  }),
)

unfoldable pub spawn_in :
    Option CliProfile
    → Config
    → String
    → Plan
    → Option String
    → Answers
    → Option String
    → Option String
    → World
    → World × Result Spawned
unfolding launched record_agent
spawn_in profile config session plan name a none path w =
    (w, fail "upstream_error" "herdr returned no pane")
spawn_in profile config session plan name a (some pane) path w =
    let id = workspace_for plan.joins pane in
    let dir = directory_for plan.branch path plan.cwd in
    let meta : WorkspaceMeta = record { cwd = dir; label = truthy plan.label } in
    record_agent profile session id pane plan dir a (launched profile config plan name id pane a)
      (indexed plan.joins session pane meta w)

-- `spawn(deps, session, p)` from the pane on, with the name that the caller gave.
pub spawn :
    Option CliProfile
    → Config
    → String
    → Plan
    → Option String
    → Answers
    → World
    → World × Result Spawned
unfolding spawn_in
spawn profile config session plan name a w = elim a.made [
  | throws e ↦ (w, throws e)
  | ok (pane, path) ↦ spawn_in profile config session plan name a (pane_of pane) path w
]
