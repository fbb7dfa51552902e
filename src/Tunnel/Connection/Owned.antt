-- ===== src/Tunnel/Connection/Owned.antt =====
-- src/tunnel.ts: what a connection may write to the registry.
use herdr_web_broker.Common.{
  ℕ, ◌+◌, ◌≡◌, refl, String, Bool, true, false, Option, some, none, List, [], ◌∷◌, ◌++◌, ltb,
  if◌then◌else◌, All, All-append,
}
use herdr_web_broker.Common.IdMap.{IdMap, at}
use herdr_web_broker.Registry as R
use herdr_web_broker.Tunnel.Connection.{
  Connection, Pending, request, subscription, TunnelEvent, TunnelFrame, Effect, Happening, resolve,
  answered, refused, deliver, end_sub, route_event, route, beat, send_request, subscribe,
  unsubscribe, go_away, new, step, run, reject_all, close_all,
}

abbrev pub instance_of : R.Call → String
instance_of (R.Call.replaces instance snap now) = instance
instance_of (R.Call.applies_status instance session agent now) = instance
instance_of (R.Call.adds_session instance session now) = instance
instance_of (R.Call.removes_session instance session now) = instance
instance_of (R.Call.goes_offline instance) = instance

abbrev pub IsAbout : String → Effect → Type 0
IsAbout name (Effect.calls_registry call) = instance_of call ≡ name
IsAbout name e = Unit

abbrev IsOwned : String → Connection → Type 0
IsOwned name c = (c.name ≡ name) × All (IsAbout name) c.effects

module _ (name : String) where
  reject_all-IsAbout : (ids : IdMap Pending) → All (IsAbout name) (reject_all ids)
  reject_all-IsAbout [] = tt
  reject_all-IsAbout (p ∷ ids) = (tt, reject_all-IsAbout ids)

  close_all-IsAbout : (ids : IdMap Unit) → All (IsAbout name) (close_all ids)
  close_all-IsAbout [] = tt
  close_all-IsAbout (s ∷ ids) = (tt, close_all-IsAbout ids)

  if-IsOwned :
      (b : Bool) (x y : Connection)
      → IsOwned name x
      → IsOwned name y
      → IsOwned name (if b then x else y)
  if-IsOwned true x y p q = p
  if-IsOwned false x y p q = q

module _ (name : String) (c : Connection) (v : IsOwned name c) where
  did : (e : Effect) → IsAbout name e → All (IsAbout name) (c.effects ++ e ∷ [])
  did e h = All-append (IsAbout name) c.effects (e ∷ []) v.1 (h, tt)

  answered-IsOwned :
      (o : Option Pending) (i : ℕ) (result : String) → IsOwned name (answered o i result c)
  unfolding answered resolve
  answered-IsOwned none i result = v
  answered-IsOwned (some request) i result = (v.0, did _ tt)
  answered-IsOwned (some subscription) i result = (v.0, did _ tt)

  refused-IsOwned : (o : Option Pending) (i : ℕ) (code : String) → IsOwned name (refused o i code c)
  unfolding refused
  refused-IsOwned none i code = v
  refused-IsOwned (some p) i code = (v.0, did _ tt)

  deliver-IsOwned :
      (o : Option Unit) (i : ℕ) (event payload : String)
      → IsOwned name (deliver o i event payload c)
  unfolding deliver
  deliver-IsOwned none i event payload = v
  deliver-IsOwned (some s) i event payload = (v.0, did _ tt)

  end_sub-IsOwned :
      (o : Option Unit) (i : ℕ) (reason : String) → IsOwned name (end_sub o i reason c)
  unfolding end_sub
  end_sub-IsOwned none i reason = v
  end_sub-IsOwned (some s) i reason = (v.0, did _ tt)

  route_event-IsOwned : (e : TunnelEvent) (now : String) → IsOwned name (route_event e now c)
  unfolding route_event
  route_event-IsOwned (TunnelEvent.agent_status session agent) now = (v.0, did _ v.0)
  route_event-IsOwned (TunnelEvent.session_added session) now = (v.0, did _ v.0)
  route_event-IsOwned (TunnelEvent.session_removed session) now = (v.0, did _ v.0)
  route_event-IsOwned (TunnelEvent.snapshot snap) now = (v.0, did _ v.0)
  route_event-IsOwned (TunnelEvent.herdr_event i event payload) now =
      deliver-IsOwned (at i c.subs) i event payload
  route_event-IsOwned (TunnelEvent.sub_closed i reason) now = end_sub-IsOwned (at i c.subs) i reason

  route-IsOwned : (f : TunnelFrame) (now : String) → IsOwned name (route f now c)
  unfolding route
  route-IsOwned (TunnelFrame.res_ok i result) now = answered-IsOwned (at i c.pending) i result
  route-IsOwned (TunnelFrame.res_error i code message) now = refused-IsOwned (at i c.pending) i code
  route-IsOwned (TunnelFrame.event e) now = route_event-IsOwned e now
  route-IsOwned TunnelFrame.other now = v

  unsubscribe-IsOwned : (o : Option Unit) (i : ℕ) → IsOwned name (unsubscribe o i c)
  unfolding unsubscribe
  unsubscribe-IsOwned none i = v
  unsubscribe-IsOwned (some s) i = (v.0, did _ tt)

  go_away-IsOwned : IsOwned name (go_away c)
  unfolding go_away
  go_away-IsOwned = (
    v.0,
    All-append (IsAbout name) c.effects _ v.1 (
        All-append (IsAbout name) (reject_all c.pending) _ (reject_all-IsAbout name c.pending) (
          All-append (IsAbout name) (close_all c.subs) _ (close_all-IsAbout name c.subs) (tt, tt))),
  )

  step-IsOwned : (h : Happening) → IsOwned name (step c h)
  unfolding step send_request subscribe beat
  step-IsOwned (Happening.requests session method params timeout_ms) = (v.0, did _ tt)
  step-IsOwned (Happening.subscribes session) = (v.0, did _ tt)
  step-IsOwned (Happening.receives frame now) = route-IsOwned frame now
  step-IsOwned Happening.receives_garbage = (v.0, did _ tt)
  step-IsOwned Happening.pongs = v
  step-IsOwned Happening.beats =
      if-IsOwned name c.beating _ c
        (if-IsOwned name (ltb 2 (c.missed_pongs + 1)) _ _ (v.0, did _ tt) (v.0, did _ tt)) v
  step-IsOwned Happening.disconnects = go_away-IsOwned
  step-IsOwned Happening.closes = (v.0, did _ tt)
  step-IsOwned (Happening.times_out i) = refused-IsOwned (at i c.pending) i _
  step-IsOwned (Happening.closes_subscription i) = unsubscribe-IsOwned (at i c.subs) i

run-IsOwned :
    (name : String) (c : Connection) (hs : List Happening)
    → IsOwned name c
    → IsOwned name (run c hs)
unfolding run
run-IsOwned name c [] v = v
run-IsOwned name c (h ∷ hs) v = run-IsOwned name (step c h) hs (step-IsOwned name c v h)

-- Whatever a child sends, its connection writes to the registry under the enrolled name only.
pub calls_registry_owned :
    (name : String) (hs : List Happening) → All (IsAbout name) (run (new name) hs).effects
unfolding new
calls_registry_owned name hs = (run-IsOwned name (new name) hs (refl, tt)).1
