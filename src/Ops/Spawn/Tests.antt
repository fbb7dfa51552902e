-- ===== src/Ops/Spawn/Tests.antt =====
-- A spawn that resumes a conversation, one that fails, and the theorems about them.
use package.text.Mathlib.Text.{find?}
use herdr_web_broker.Common.{
  ℕ, ◌≡◌, ◌≢◌, refl, String, Bool, true, false, Option, some, none, [], ◌∷◌, is_some,
}
use herdr_web_broker.Common.Dict.{lookup}
use herdr_web_broker.State.{get}
use herdr_web_broker.State.Resumable.{ResumableMeta, truthy}
use herdr_web_broker.Ops.{World, Result, ok, fail, is_ok, workspace_of}
use herdr_web_broker.Ops.Workspaces.{Listing}
use herdr_web_broker.Ops.Values.{text, object, Fields, field, end, member, str}
use herdr_web_broker.Ops.Resume.{
  CliProfile, ResumeSyntax, resolve_resume, resolve_asked, find_reference, archived_reference,
  with_syntax,
}
use herdr_web_broker.Ops.Placement.{
  Plan, directory_for, plan_spawn, kind_for, one_place, args_of, branch_of, cwd_for, own_directory,
}
use herdr_web_broker.Ops.Placement.Placed.{Resumes, Isolates, plan_spawn-Resumes}
use herdr_web_broker.Ops.Launch.{pane_name, start_agent, out_of_fuel}
use herdr_web_broker.Ops.Launch.Starts.{start_agent_terminates}
use herdr_web_broker.Ops.Spawn.{Answers, Config, spawn}
use herdr_web_broker.Ops.Spawn.Rows.{HandsBack, agents_after, agent_row, spawn-HandsBack}

abbrev syntax : ResumeSyntax
syntax = record { flag = "--resume"; style = none; extra_args = "--fork-session" ∷ [] }

abbrev profile : CliProfile
profile = record {
  kind = "claude";
  pin_flag = some "--session-id";
  resume = some syntax;
  unauthenticated = "Not logged in" ∷ [];
  settle_ms = some 2500;
}

abbrev profile_of : String → Option CliProfile
profile_of kind = some profile

abbrev ended : ResumableMeta
ended = record { session_id = "c1"; kind = "claude"; cwd = "/repo"; ended_at = 4; label = none }

abbrev world : World
world = record {
  index = [];
  agents = [];
  resumable = ("default", ("c1", ended) ∷ []) ∷ [];
  ask_locks = [];
}

abbrev request : Fields
request = field "resume" (object (field "session_id" (text "c1") end)) end

abbrev stat : String → Option Bool
stat path = some true

abbrev listing : Listing
listing = fail "upstream_timeout" "no answer"

abbrev plan : Plan
plan = record {
  kind = "claude";
  target = some (record {
    reference = record { session_id = "c1"; kind = "claude"; cwd = "/repo" };
    syntax = syntax;
  });
  args = none;
  branch = none;
  joins = none;
  cwd = "/repo";
  label = none;
}

planned : plan_spawn profile_of stat listing "default" request world ≡ ok plan
unfolding plan_spawn kind_for one_place args_of branch_of cwd_for own_directory member str
    resolve_resume resolve_asked find_reference archived_reference with_syntax get lookup
planned = refl

plan_spawn-Resumes_example :
    Resumes profile_of plan (some "/work") plan.target × Isolates plan.branch plan.joins
plan_spawn-Resumes_example =
    plan_spawn-Resumes profile_of "default" world stat listing request plan (some "/work") planned

abbrev busy : ℕ → String → Result (Unit {0})
busy attempt name = fail "agent_pane_busy" "the shell is not at its prompt"

start_agent_terminates_example :
    start_agent busy 4
      (record { explicit = false; kind = "claude"; fallback = pane_name "claude" "w1:p1" })
      none
    ≢ out_of_fuel
start_agent_terminates_example = start_agent_terminates busy 4 false "claude" "w1:p1" none

abbrev answers : Answers
answers = record {
  made = ok (some "w1:p1", none);
  ready = ok tt;
  starts = busy;
  lists = λ i. ok [];
  screen = "";
  now = 9;
  minted_id = "c2";
}

abbrev config : Config
config = record { busy_retries = 4; settle_ms = none }

paned : is_some (find? "w1:p1" ":") ≡ true
paned = refl

spawn-HandsBack_example :
    let id = workspace_of "w1:p1" in
    let done = spawn (some profile) config "default" plan none answers world in
    (get "default" id done.0.index
      ≡ some (record { cwd = directory_for plan.branch none plan.cwd; label = truthy plan.label }))
    × (done.0.agents
        ≡ agents_after
            (is_ok done.1)
            "default"
            "w1:p1"
            (agent_row (some profile) config "default" "w1:p1" plan none answers none world)
            world.agents)
    × HandsBack id "w1:p1" done.1
spawn-HandsBack_example =
    spawn-HandsBack (some profile) config "default" "w1:p1" plan none answers none world refl paned
      refl
