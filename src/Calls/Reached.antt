-- ===== src/Calls/Reached.antt =====
-- src/http.ts, src/south.ts: which calls reach a child, and what the child does with them.
use herdr_web_broker.Common.{
  ℕ, ◌≡◌, refl, String, Bool, true, false, not, ◌&&◌, Option, some, none, List, any, is_some,
  str_eq, arith,
}
use herdr_web_broker.Common.Dict.{lookup}
use herdr_web_broker.Access.Policy.{method_denied}
use herdr_web_broker.Registry.Data.{Stored}
use herdr_web_broker.Registry.File.{RawStored}
use herdr_web_broker.Common.Dict.{Dict}
use herdr_web_broker.Registry.{is_online}
use herdr_web_broker.Tunnel.Hub.{Hub, HubStep, boot, hub_run}
use herdr_web_broker.Tunnel.Hub.Attached.{stray_run, is_online-attached}
use herdr_web_broker.Calls.{Outcome, asks_child, call_local, call_child, call_instance}

abbrev pub lists_session : Option Stored → String → Bool
lists_session none session = false
lists_session (some entry) session = is_some (lookup session entry.sessions)

-- Whether the registry lists a session of an instance.
abbrev pub knows : String → String → Hub → Bool
knows instance session hub = lists_session (lookup instance hub.registry.instances) session

abbrev pub is_asks_child : Outcome → Bool
is_asks_child (asks_child conn session method) = true
is_asks_child _ = false

module _ (session method : String) where
  call_child-asks :
      (entry : Option Stored) (child : Option ℕ)
      → is_asks_child (call_child entry child session method)
        ≡ lists_session entry session && is_some child
  unfolding call_child
  call_child-asks none child = refl
  call_child-asks (some entry) none = ground arith
  call_child-asks (some entry) (some conn) = ground arith

  call_local-asks : (b : Bool) → is_asks_child (call_local b session method) ≡ false
  unfolding call_local
  call_local-asks true = ground arith
  call_local-asks false = refl

-- On a parent with any history in which no snapshot of the instance was written while the hub held no
-- connection of it, or its connection has gone since: a call goes to a child exactly if it is not for the
-- parent itself, the policy does not deny it, the instance is online, and the registry lists the session.
pub call_instance-reached :
    (sessions remote_deny : List String) (persist : Bool) (file : Option (Dict RawStored))
    (ss : List HubStep) (instance session method : String)
    → stray_run instance (boot persist file) false ss ≡ false
    → let hub = hub_run (boot persist file) ss in
      is_asks_child (call_instance sessions remote_deny hub instance session method)
      ≡ not (str_eq instance "runtime")
        && (not (method_denied method remote_deny)
            && (knows instance session hub && is_online instance hub.registry))
unfolding call_instance
call_instance-reached sessions remote_deny persist file ss instance session method none_stray =
    let hub = hub_run (boot persist file) ss in
    ground (
      arith,
      call_local-asks session method (any (λ s. str_eq s session) sessions),
      call_child-asks session method (lookup instance hub.registry.instances)
          (lookup instance hub.children),
      is_online-attached instance persist file ss,
      none_stray,
    )
