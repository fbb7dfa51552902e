-- ===== src/Tunnel/Hub.antt =====
-- `TunnelHub` of src/tunnel.ts with the registry that its connections write to, and `acceptChild` of
-- src/ws-server.ts, which lets a child in. A connection is known by a serial number.
pub mod Attached
use herdr_web_broker.Common.{
  ℕ, ◌+◌, String, Bool, Option, some, none, List, [], ◌∷◌, ◌++◌, nat_eq, if◌then◌else◌,
}
use herdr_web_broker.Common.Dict.{Dict, lookup, insert, remove}
use herdr_web_broker.Registry.Data.{AgentInfo, SessionSnapshot, InstanceSnapshot}
use herdr_web_broker.Registry.File.{RawStored}
use herdr_web_broker.Registry as R

pub record Hub : Type 0 where
  pub children : Dict ℕ
  pub made : ℕ
  -- the connections whose `close` was called
  pub closed : List ℕ
  pub registry : R.Registry

-- A new process: the registry as `Registry.load` leaves it, and no child.
pub boot : Bool → Option (Dict RawStored) → Hub
boot persist file = record {
  children = [];
  made = 0;
  closed = [];
  registry = R.load (R.new persist file);
}

close_child : Option ℕ → List ℕ → List ℕ
close_child none closed = closed
close_child (some conn) closed = closed ++ conn ∷ []

attach : String → Hub → Hub
unfolding close_child
attach name h = record h {
  children = insert name h.made h.children;
  made = h.made + 1;
  closed = close_child (lookup name h.children) h.closed;
}

-- The callback of `attach`, run when the socket of `conn` has closed or failed.
gone_of : Option ℕ → String → ℕ → Hub → Hub
gone_of none name conn h = h
gone_of (some current) name conn h =
    if nat_eq current conn
    then record h { children = remove name h.children; registry = R.set_offline name h.registry }
    else h

child_gone : String → ℕ → Hub → Hub
unfolding gone_of
child_gone name conn h = gone_of (lookup name h.children) name conn h

pub disconnect : String → Hub → Hub
unfolding close_child
disconnect name h = record h { closed = close_child (lookup name h.children) h.closed }

pub data Greeting : Type 0 where
  hello : (proto : ℕ) → InstanceSnapshot → Greeting
  garbage other : Greeting

abbrev proto_version : ℕ
proto_version = 2

-- The first message of an enrolled socket; `name` is the one that its secret is bound to. A greeting
-- that is refused closes the socket before there is a connection.
pub accept_child : String → Greeting → String → Hub → Hub
unfolding attach
accept_child name garbage now h = h
accept_child name other now h = h
accept_child name (hello proto snap) now h =
    if nat_eq proto proto_version
    then attach name (record h { registry = R.replace_snapshot name snap now h.registry })
    else h

pub data HubStep : Type 0 where
  greets : (name : String) → Greeting → (now : String) → HubStep
  goes : (name : String) → (conn : ℕ) → HubStep
  reports_status : (name session : String) → AgentInfo → (now : String) → HubStep
  reports_added : (name : String) → SessionSnapshot → (now : String) → HubStep
  reports_removed : (name session now : String) → HubStep
  reports_snapshot : (name : String) → InstanceSnapshot → (now : String) → HubStep
  attaches_local : InstanceSnapshot → (now : String) → HubStep
  drops : (name : String) → HubStep

-- Every interleaving of greetings, closings and events of current or replaced connections, with the start
-- of the local attachment (src/local-attach.ts), which writes to the same registry under "runtime"; its
-- later events are those of a session or an agent, under that name.
pub hub_step : Hub → HubStep → Hub
unfolding accept_child child_gone disconnect
hub_step h (greets name greeting now) = accept_child name greeting now h
hub_step h (goes name conn) = child_gone name conn h
hub_step h (reports_status name session agent now) = record h {
  registry = R.apply_agent_status name session agent now h.registry;
}
hub_step h (reports_added name session now) = record h {
  registry = R.apply_session_added name session now h.registry;
}
hub_step h (reports_removed name session now) = record h {
  registry = R.apply_session_removed name session now h.registry;
}
hub_step h (reports_snapshot name snap now) = record h {
  registry = R.replace_snapshot name snap now h.registry;
}
hub_step h (attaches_local snap now) = record h {
  registry = R.replace_snapshot "runtime" snap now h.registry;
}
hub_step h (drops name) = disconnect name h

pub hub_run : Hub → List HubStep → Hub
hub_run h [] = h
hub_run h (s ∷ ss) = hub_run (hub_step h s) ss
