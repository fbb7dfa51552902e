-- ===== src/Registry/Tests.antt =====
-- Runs of the registry, and the theorems about it at concrete inputs.
use herdr_web_broker.Common.{to_ℕ, ◌+◌, ◌≡◌, refl, true, some, none, List, [], ◌∷◌}
use herdr_web_broker.Common.Dict.{lookup, insert, remove}
use herdr_web_broker.Common.Dict.Distinct.{insert_all, map_values}
use herdr_web_broker.Registry.Data.{AgentInfo, working, blocked, InstanceSnapshot, Stored}
use herdr_web_broker.Registry.{
  Call, replaces, applies_status, goes_offline, new, load, flush, emit, is_online, update_entry,
  set_offline, apply_agent_status, apply_session_added, apply_session_removed, replace_snapshot,
  put_agent, step, run, counts, rollup,
}
use herdr_web_broker.Registry.Agents.{agent_at}
use herdr_web_broker.Registry.Synced.{restart, take_offline, restart-run}
use herdr_web_broker.Registry.Tally.{at_status}
use herdr_web_broker.Registry.Transitions.{onlines, offlines, onlines-eq-offlines}

abbrev codex : AgentInfo
codex = record {
  id = "p1";
  title = "codex";
  status = working;
  raw_status = some "working";
  interactive_ready = none;
  launch_pending = none;
}

abbrev claude : AgentInfo
claude = record codex { id = "p2"; title = "claude"; status = blocked; raw_status = none }

abbrev laptop_snapshot : InstanceSnapshot
laptop_snapshot = record {
  platform = "macos";
  herdr_version = "0.8.2";
  sessions = record { name = "default"; agents = codex ∷ [] } ∷ [];
}

abbrev history : List Call
history =
    replaces "laptop" laptop_snapshot "t1"
    ∷ applies_status "laptop" "default" claude "t2"
    ∷ goes_offline "laptop"
    ∷ replaces "laptop" laptop_snapshot "t3"
    ∷ applies_status "laptop" "default" claude "t4"
    ∷ []

abbrev laptop : Stored
laptop = record {
  online = true;
  as_of = "t1";
  platform = "macos";
  herdr_version = "0.8.2";
  sessions = ("default", codex ∷ []) ∷ [];
}

machine : Unit {0}
unfolding run step new load flush emit update_entry set_offline apply_agent_status
    apply_session_added apply_session_removed replace_snapshot put_agent lookup insert remove
    insert_all map_values counts rollup
machine = tt

history_runs :
    (agent_at "laptop" "default" "p2" (run (new true none) history) ≡ some claude)
    × (at_status working (counts "laptop" (run (new true none) history)) ≡ 1)
unfolding machine
history_runs = (refl, refl)

restart-run_example :
    (restart (run (load (new true none)) history)).instances
    ≡ map_values take_offline (run (load (new true none)) history).instances
restart-run_example = restart-run none history tt

onlines-eq-offlines_example :
    onlines "laptop" (run (new true none) history).emitted
    ≡ offlines "laptop" (run (new true none) history).emitted
      + to_ℕ (is_online "laptop" (run (new true none) history))
onlines-eq-offlines_example = onlines-eq-offlines "laptop" true none history
