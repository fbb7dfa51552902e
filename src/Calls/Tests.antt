-- ===== src/Calls/Tests.antt =====
-- Calls through a parent and redials of a child, and the theorems about them at concrete inputs.
use herdr_web_broker.Common.{refl, ◌≡◌, true, false, none, List, [], ◌∷◌, not, ◌&&◌, str_eq}
use herdr_web_broker.Access.Policy.{method_denied}
use herdr_web_broker.Registry.Data.{InstanceSnapshot}
use herdr_web_broker.Registry.{is_online}
use herdr_web_broker.Tunnel.Hub.{HubStep, greets, hello, boot, hub_run}
use herdr_web_broker.Tunnel.Hub.Attached.{stray_run}
use herdr_web_broker.Calls.{call_instance}
use herdr_web_broker.Calls.Reached.{is_asks_child, knows, call_instance-reached}
use herdr_web_broker.Common.IdMap.{put}
use herdr_web_broker.Calls.Taps

abbrev laptop : InstanceSnapshot
laptop = record {
  platform = "macos";
  herdr_version = "0.8.2";
  sessions = record { name = "default"; agents = [] } ∷ [];
}

abbrev enrolled : List HubStep
enrolled = greets "laptop" (hello 2 laptop) "t1" ∷ []

no_stray : stray_run "laptop" (boot true none) false enrolled ≡ false
unfolding stray_run
no_stray = refl

call_instance-reached_example :
    let hub = hub_run (boot true none) enrolled in
    is_asks_child (call_instance [] ("plugin.*" ∷ []) hub "laptop" "default" "agent.list")
    ≡ not (str_eq "laptop" "runtime")
      && (not (method_denied "agent.list" ("plugin.*" ∷ []))
          && (knows "laptop" "default" hub && is_online "laptop" hub.registry))
call_instance-reached_example =
    call_instance-reached [] ("plugin.*" ∷ []) true none enrolled "laptop" "default" "agent.list"
      no_stray

-- A tap that is opened after the tunnel has closed is held, and not closed.
late_tap :
    (Taps.run
      (record { taps = []; is_open = true; effects = [] })
      (Taps.sub 1 "default" ∷ Taps.closes ∷ Taps.opened_tap 1 ∷ [])).taps
    ≡ (1, tt) ∷ []
unfolding Taps.run Taps.step put
late_tap = refl
