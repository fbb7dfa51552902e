-- ===== src/Sdk/Channel/Steps.antt =====
-- packages/client/src/events.ts: the subscriptions and frames of an `EventChannel`, and its steps.
use herdr_web_broker.Common.{
  ℕ, ◌+◌, String, Bool, ◌||◌, Option, some, none, List, [], ◌∷◌, str_eq, if◌then◌else◌,
}
use herdr_web_broker.Common.Dict.{Dict, lookup, insert, remove}
use herdr_web_broker.Common.IdMap.{at, put, without}
use herdr_web_broker.Sdk.Channel.{
  Purpose, Channel, does, connect, close, open_socket, give_up, rpc_on, rpc, forget_sub_id, on_open,
  on_close, on_probe, on_timer, plain, subscribes, resubscribes, unsubscribes, resolves, rejects,
  emits, delivers, retires,
}

-- `subscribe(...)`, up to the acknowledgement.
unfoldable pub subscribe : Channel → Channel
unfolding rpc_on open_socket
subscribe c = rpc (subscribes c.group_count) (record c { group_count = c.group_count + 1 })

abbrev bound : Option (Unit {0}) → ℕ → String → Dict ℕ → Dict ℕ
bound none g sub_id subs = subs
bound (some member) g sub_id subs = insert sub_id g subs

-- How what awaits a call goes on when it has its answer, a `sub_id` for a subscription.
unfoldable pub go_on : Purpose → String → Channel → Channel
go_on plain sub_id c = c
go_on (subscribes g) sub_id c = record c {
  groups = put g tt c.groups;
  sub_ids = put g sub_id c.sub_ids;
  by_sub_id = insert sub_id g c.by_sub_id;
}
go_on (resubscribes g) sub_id c = record c {
  sub_ids = put g sub_id c.sub_ids;
  by_sub_id = bound (at g c.groups) g sub_id c.by_sub_id;
}
go_on unsubscribes sub_id c = c

-- The broker is told of it if the socket is open and the group has its `subId`.
abbrev pub told : Option ℕ → Option String → Channel → Channel
told none sub_id c = c
told (some socket) none c = c
told (some socket) (some sub_id) c = rpc_on (some socket) unsubscribes c

abbrev pub left : Option (Unit {0}) → ℕ → Channel → Channel
left none g c = c
left (some member) g c = told (open_socket c.ws c.opened) (at g c.sub_ids) (record c {
  groups = without g c.groups;
  by_sub_id = forget_sub_id (at g c.sub_ids) c.by_sub_id;
})

-- The function that `subscribe` resolves with.
unfoldable pub unsubscribe : ℕ → Channel → Channel
unfolding rpc_on open_socket
unsubscribe g c = left (at g c.groups) g c

pub data Answer : Type 0 where
  result : (sub_id : String) → Answer
  error : Answer

pub data Frame : Type 0 where
  malformed : Frame
  herdr_event : (sub_id : String) → Frame
  sub_closed : (sub_id : String) → Frame
  status_event : (name : String) → Frame
  answer : (id : ℕ) → Answer → Frame

unfoldable pub settle : Option Purpose → ℕ → Answer → Channel → Channel
unfolding go_on give_up
settle none id a c = c
settle (some p) id (result sub_id) c =
    go_on p sub_id (does (resolves id ∷ []) (record c { pending = without id c.pending }))
settle (some p) id error c =
    give_up p (does (rejects id ∷ []) (record c { pending = without id c.pending }))

abbrev pub delivered : Option ℕ → Channel → Channel
delivered none c = c
delivered (some g) c = does (delivers g ∷ []) c

abbrev pub ended : Option ℕ → String → Channel → Channel
ended none sub_id c = c
ended (some g) sub_id c =
    does (retires g ∷ [])
      (record c { by_sub_id = remove sub_id c.by_sub_id; groups = without g c.groups })

abbrev pub is_status : String → Bool
is_status name =
    str_eq name "agent_status" || (str_eq name "instance_online" || str_eq name "instance_offline")

-- `#onFrame(text)`; a status event has its type with the first dot replaced.
unfoldable pub on_frame : Frame → Channel → Channel
unfolding settle
on_frame malformed c = c
on_frame (herdr_event sub_id) c = delivered (lookup sub_id c.by_sub_id) c
on_frame (sub_closed sub_id) c = ended (lookup sub_id c.by_sub_id) sub_id c
on_frame (status_event name) c = if is_status name then does (emits name ∷ []) c else c
on_frame (answer id a) c = settle (at id c.pending) id a c

-- What happens to a channel, in any order.
pub data Happening : Type 0 where
  connects closing_down calls subscribing : Happening
  unsubscribing : (group : ℕ) → Happening
  opened_up closed_down : (socket : ℕ) → Happening
  probed : (is_revoked : Bool) → (jitter : ℕ) → Happening
  fires : (timer : ℕ) → Happening
  receives : Frame → Happening

unfoldable pub step : Happening → Channel → Channel
unfolding close rpc_on open_socket on_open on_close on_probe on_timer subscribe unsubscribe on_frame
step connects c = connect c
step closing_down c = close c
step calls c = rpc plain c
step subscribing c = subscribe c
step (unsubscribing g) c = unsubscribe g c
step (opened_up socket) c = on_open socket c
step (closed_down socket) c = on_close socket c
step (probed is_revoked jitter) c = on_probe is_revoked jitter c
step (fires timer) c = on_timer timer c
step (receives frame) c = on_frame frame c

unfoldable pub run : List Happening → Channel → Channel
unfolding step
run [] c = c
run (h ∷ hs) c = run hs (step h c)
