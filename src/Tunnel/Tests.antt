-- ===== src/Tunnel/Tests.antt =====
-- Runs of a connection and of the hub, and the theorems about them at concrete inputs.
use herdr_web_broker.Common.{to_ℕ, false, ◌||◌, ◌+◌, ◌≡◌, true, none, List, [], ◌∷◌, ◌++◌, is_some}
use herdr_web_broker.Common.IdMap.{at}
use herdr_web_broker.Registry.{is_online}
use herdr_web_broker.Registry.Data.{AgentInfo, InstanceSnapshot, working}
use herdr_web_broker.Tunnel.Connection.{Happening, TunnelFrame, TunnelEvent, new, run}
use herdr_web_broker.Tunnel.Connection.Settled.{settlements, was_sent, settled-run}
use herdr_web_broker.Tunnel.Hub.{HubStep, greets, goes, reports_snapshot, hello, boot, hub_run}
use herdr_web_broker.Tunnel.Hub.Attached.{is_attached, stray_run, is_online-attached}

abbrev codex : AgentInfo
codex = record {
  id = "p1";
  title = "codex";
  status = working;
  raw_status = none;
  interactive_ready = none;
  launch_pending = none;
}

abbrev traffic : List Happening
traffic =
    Happening.requests "default" "agent.list" "{}" 15000
    ∷ Happening.subscribes "default"
    ∷ Happening.receives (TunnelFrame.res_ok 1 "[]") "t1"
    ∷ Happening.receives (TunnelFrame.event (TunnelEvent.agent_status "default" codex)) "t2"
    ∷ Happening.receives (TunnelFrame.res_ok 1 "[]") "t3"
    ∷ Happening.times_out 2
    ∷ Happening.requests "default" "agent.list" "{}" 15000
    ∷ []

settled-run_example :
    let c = run (new "laptop") traffic in
    let ended = run (new "laptop") (traffic ++ Happening.disconnects ∷ []) in
    (settlements 3 c.effects + to_ℕ (is_some (at 3 c.pending)) ≡ to_ℕ (was_sent 3 c))
    × (settlements 3 ended.effects ≡ to_ℕ (was_sent 3 c))
settled-run_example = settled-run "laptop" traffic 3

abbrev laptop : InstanceSnapshot
laptop = record { platform = "macos"; herdr_version = "0.8.2"; sessions = [] }

-- The child re-enrolls before its first socket closes; both close, and the first reports a snapshot late.
abbrev reattached : List HubStep
reattached =
    greets "laptop" (hello 2 laptop) "t1"
    ∷ greets "laptop" (hello 2 laptop) "t2"
    ∷ goes "laptop" 1
    ∷ reports_snapshot "laptop" laptop "t3"
    ∷ []

is_online-attached_example :
    let start = boot true none in
    is_online "laptop" (hub_run start reattached).registry
    ≡ is_attached "laptop" (hub_run start reattached) || stray_run "laptop" start false reattached
is_online-attached_example = is_online-attached "laptop" true none reattached
