-- ===== src/Tunnel/Connection.antt =====
-- `ChildConnection` of src/tunnel.ts, as a machine: each thing that happens to a connection (a call of
-- a method, a frame, a timer, a socket event) gives the next state, and what it does to the outside is
-- appended to `effects`. A request's id is its serial number, where the source writes the text
-- `${name}:${n}`; the subscription that a request opens has the id of the request, where the source
-- writes `${name}-sub-${n}`. A promise is known by the id of its request. Values in frames that the
-- connection only hands on are text.
pub mod Settled
pub mod Owned
use herdr_web_broker.Common.{
  ℕ, suc, ◌+◌, String, Bool, true, false, Option, some, none, List, [], ◌∷◌, ◌++◌, map, ltb,
  if◌then◌else◌,
}
use herdr_web_broker.Common.IdMap.{IdMap, at, put, without}
use herdr_web_broker.Registry.Data.{AgentInfo, SessionSnapshot, InstanceSnapshot}
use herdr_web_broker.Registry as R

-- What waits for an answer: a plain request, or a subscription that the answer opens.
pub data Pending : Type 0 where
  request subscription : Pending

pub data TunnelEvent : Type 0 where
  agent_status : (session : String) → AgentInfo → TunnelEvent
  session_added : SessionSnapshot → TunnelEvent
  session_removed : (session : String) → TunnelEvent
  snapshot : InstanceSnapshot → TunnelEvent
  herdr_event : (sub_id : ℕ) → (name payload : String) → TunnelEvent
  sub_closed : (sub_id : ℕ) → (reason : String) → TunnelEvent

pub data TunnelFrame : Type 0 where
  res_ok : (id : ℕ) → (result : String) → TunnelFrame
  res_error : (id : ℕ) → (code message : String) → TunnelFrame
  event : TunnelEvent → TunnelFrame
  -- "hello", "welcome", "req", "sub", "unsub": a child sends none of them here, and they are dropped
  other : TunnelFrame

pub data Sent : Type 0 where
  req : (id : ℕ) → (session method params : String) → (timeout_ms : ℕ) → Sent
  sub : (id : ℕ) → (session : String) → Sent
  unsub : (sub_id : ℕ) → Sent

pub data Effect : Type 0 where
  sends : Sent → Effect
  resolves : (id : ℕ) → (result : String) → Effect
  rejects : (id : ℕ) → (code : String) → Effect
  calls_registry : R.Call → Effect
  delivers : (sub_id : ℕ) → (name payload : String) → Effect
  closes_sub : (sub_id : ℕ) → (reason : String) → Effect
  pings terminates gone closes_socket : Effect

pub record Connection : Type 0 where
  pub name : String
  pub seq : ℕ
  pub pending : IdMap Pending
  pub subs : IdMap (Unit {0})
  pub missed_pongs : ℕ
  pub beating : Bool
  pub effects : List Effect

unfoldable pub new : String → Connection
new name = record {
  name = name;
  seq = 0;
  pending = [];
  subs = [];
  missed_pongs = 0;
  beating = true;
  effects = [];
}

abbrev does : Effect → Connection → Connection
does e c = record c { effects = c.effects ++ e ∷ [] }

abbrev reject_all : IdMap Pending → List Effect
reject_all = map (λ p. rejects p.0 "instance_offline")

abbrev close_all : IdMap (Unit {0}) → List Effect
close_all = map (λ s. closes_sub s.0 "child disconnected")

-- `#gone`: also on a second "close" or "error", which then finds nothing pending.
go_away : Connection → Connection
go_away c = record c {
  beating = false;
  pending = [];
  subs = [];
  effects = c.effects ++ (reject_all c.pending ++ (close_all c.subs ++ gone ∷ []));
}

-- A pending entry's `resolve`: a subscription's answer opens it first.
resolve : Pending → ℕ → String → Connection → Connection
resolve request id result c = does (resolves id result) c
resolve subscription id result c = does (resolves id result) (record c { subs = put id tt c.subs })

answered : Option Pending → ℕ → String → Connection → Connection
unfolding resolve
answered none id result c = c
answered (some p) id result c = resolve p id result (record c { pending = without id c.pending })

refused : Option Pending → ℕ → String → Connection → Connection
refused none id code c = c
refused (some p) id code c = does (rejects id code) (record c { pending = without id c.pending })

deliver : Option (Unit {0}) → ℕ → String → String → Connection → Connection
deliver none sub_id name payload c = c
deliver (some _) sub_id name payload c = does (delivers sub_id name payload) c

end_sub : Option (Unit {0}) → ℕ → String → Connection → Connection
end_sub none sub_id reason c = c
end_sub (some _) sub_id reason c =
    does (closes_sub sub_id reason) (record c { subs = without sub_id c.subs })

-- The events of a child go to the registry under the connection's own name. `now` is the time that the
-- registry reads.
route_event : TunnelEvent → String → Connection → Connection
unfolding deliver end_sub
route_event (agent_status session agent) now c =
    does (calls_registry (R.Call.applies_status c.name session agent now)) c
route_event (session_added session) now c =
    does (calls_registry (R.Call.adds_session c.name session now)) c
route_event (session_removed session) now c =
    does (calls_registry (R.Call.removes_session c.name session now)) c
route_event (snapshot snap) now c = does (calls_registry (R.Call.replaces c.name snap now)) c
route_event (herdr_event sub_id name payload) now c =
    deliver (at sub_id c.subs) sub_id name payload c
route_event (sub_closed sub_id reason) now c = end_sub (at sub_id c.subs) sub_id reason c

route : TunnelFrame → String → Connection → Connection
unfolding answered refused route_event
route (res_ok id result) now c = answered (at id c.pending) id result c
route (res_error id code message) now c = refused (at id c.pending) id code c
route (event e) now c = route_event e now c
route other now c = c

-- One tick of the heartbeat: the third in a row with no pong ends the socket.
beat : Connection → Connection
beat c =
    let missed = c.missed_pongs + 1 in
    let counted = record c { missed_pongs = missed } in
    if ltb 2 missed then does terminates counted else does pings counted

-- `request(session, method, params, timeoutMs)`
send_request : String → String → String → ℕ → Connection → Connection
send_request session method params timeout_ms c =
    let id = c.seq + 1 in
    does (sends (req id session method params timeout_ms))
      (record c { seq = id; pending = put id request c.pending })

subscribe : String → Connection → Connection
subscribe session c =
    let id = c.seq + 1 in
    does (sends (sub id session)) (record c { seq = id; pending = put id subscription c.pending })

-- The function that an opened subscription resolves with.
unsubscribe : Option (Unit {0}) → ℕ → Connection → Connection
unsubscribe none sub_id c = c
unsubscribe (some _) sub_id c =
    does (sends (unsub sub_id)) (record c { subs = without sub_id c.subs })

pub data Happening : Type 0 where
  requests : (session method params : String) → (timeout_ms : ℕ) → Happening
  subscribes : (session : String) → Happening
  receives : TunnelFrame → (now : String) → Happening
  receives_garbage pongs beats disconnects closes : Happening
  times_out : (id : ℕ) → Happening
  closes_subscription : (sub_id : ℕ) → Happening

-- A timer that was cleared does not fire, so a timeout finds its request pending or nothing to do.
pub step : Connection → Happening → Connection
unfolding route beat send_request subscribe unsubscribe go_away refused
step c (requests session method params timeout_ms) = send_request session method params timeout_ms c
step c (subscribes session) = subscribe session c
step c (receives frame now) = route frame now c
step c receives_garbage = does terminates c
step c pongs = record c { missed_pongs = 0 }
step c beats = if c.beating then beat c else c
step c disconnects = go_away c
step c closes = does closes_socket c
step c (times_out id) = refused (at id c.pending) id "upstream_timeout" c
step c (closes_subscription sub_id) = unsubscribe (at sub_id c.subs) sub_id c

pub run : Connection → List Happening → Connection
run c [] = c
run c (h ∷ hs) = run (step c h) hs
