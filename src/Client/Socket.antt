-- ===== src/Client/Socket.antt =====
-- `acceptClient` of src/ws-server.ts: one client's socket and the taps it holds, as a machine. A frame
-- runs up to its `await`; the answer to an awaited subscription is a later step. A tap is known by the
-- serial number of its `sub-${n}`.
pub mod Counts
pub mod Accounts
pub mod Capacity
pub mod Privacy
use herdr_web_broker.Common.{
  ℕ, ◌+◌, ◌<◌, String, Bool, true, false, not, ◌&&◌, ◌||◌, Option, some, none, List, [], ◌∷◌, ◌++◌,
  map, length, leb, str_eq, opt_eq, is_some, if◌then◌else◌,
}
use herdr_web_broker.Common.Dict.{Dict}
use herdr_web_broker.Common.IdMap.{IdMap, at, put, without}
use herdr_web_broker.Owners.{OwnerBinding}
use herdr_web_broker.Client.Subscriptions.{Member, Element, sanitize_subscriptions}

-- A slot that is reserved while the tap is being opened has a close function that does nothing.
pub data Tap : Type 0 where
  reserved live : Tap

pub data Frame : Type 0 where
  no_method events_subscribe : Frame
  subscribe : (instance session : String) → (subscriptions : Option (List Element)) → Frame
  unsubscribe : (sub_id : ℕ) → Frame
  rpc : (instance session method params : String) → Frame

pub data Effect : Type 0 where
  replies : (result : String) → Effect
  fails : (code : String) → Effect
  -- `local.tap` and `child.subscribe`
  asks_tap : (sub_id : ℕ) → (instance session : String) → List (Dict Member) → Effect
  -- the upstream acknowledged the tap
  opens : (sub_id : ℕ) → Effect
  -- the close function that the upstream gave was called
  closes : (sub_id : ℕ) → Effect
  calls_instance : (instance session method params : String) → Effect
  pushes : (event : String) → (sub_id : ℕ) → Effect

pub record Socket : Type 0 where
  pub taps : IdMap Tap
  pub sub_seq : ℕ
  -- the subscriptions whose acknowledgement is awaited
  pub awaited : IdMap (Unit {0})
  pub is_open : Bool
  pub effects : List Effect

unfoldable pub accept_client : Socket
accept_client = record { taps = []; sub_seq = 0; awaited = []; is_open = true; effects = [] }

abbrev pub does : List Effect → Socket → Socket
does es s = record s { effects = s.effects ++ es }

abbrev pub max_sub_groups : ℕ
max_sub_groups = 8

-- What the broker around the socket answers: `deps.owners?.bySession`, `deps.callInstance`, and
-- whether a tap of the instance can be asked for at all, or the code of the error that is thrown.
pub record Deps : Type 0 where
  pub by_session : String → Option OwnerBinding
  pub has_call_instance : Bool
  pub unreachable : String → Option String

abbrev pub owner_differs : Option OwnerBinding → Option String → Bool
owner_differs none token_name = false
owner_differs (some binding) token_name = not (opt_eq (some binding.token) token_name)

-- `ownedByOther`
abbrev pub owned_by_other : Deps → Option String → String → Bool
owned_by_other deps token_name session = owner_differs (deps.by_session session) token_name

-- From the reservation of the slot on: a target that cannot be reached frees it again.
reserve : Option String → String → String → List (Dict Member) → Socket → Socket
reserve none instance session subs s =
    let id = s.sub_seq + 1 in
    does (asks_tap id instance session subs ∷ [])
      (record s { sub_seq = id; taps = put id reserved s.taps; awaited = put id tt s.awaited })
reserve (some code) instance session subs s =
    let id = s.sub_seq + 1 in
    does (fails code ∷ []) (record s { sub_seq = id; taps = without id (put id reserved s.taps) })

subscribe_sanitized : Option (List (Dict Member)) → Deps → String → String → Socket → Socket
unfolding reserve
subscribe_sanitized none deps instance session s = does (fails "bad_request" ∷ []) s
subscribe_sanitized (some subs) deps instance session s =
    if leb max_sub_groups (length s.taps)
    then does (fails "bad_request" ∷ []) s
    else reserve (deps.unreachable instance) instance session subs s

-- `subscribeFrame`, up to its `await`.
subscribe_frame : Deps → Option String → String → String → Option (List Element) → Socket → Socket
unfolding subscribe_sanitized
subscribe_frame deps token_name instance session raw s =
    if str_eq instance "" || str_eq session ""
    then does (fails "bad_request" ∷ []) s
    else if owned_by_other deps token_name session
    then does (fails "unknown_session" ∷ []) s
    else subscribe_sanitized (sanitize_subscriptions raw) deps instance session s

-- A tap's own close function, in the table or called by a late acknowledgement.
abbrev pub close_tap : ℕ → Tap → List Effect
close_tap id reserved = []
close_tap id live = closes id ∷ []

unsubscribe_found : Option Tap → ℕ → Socket → Socket
unsubscribe_found none id s = does (fails "bad_request" ∷ []) s
unsubscribe_found (some tap) id s =
    does (close_tap id tap ++ replies "unsubscribed" ∷ []) (record s { taps = without id s.taps })

call_frame : Deps → Option String → String → String → String → String → Socket → Socket
call_frame deps token_name instance session method params s =
    if not deps.has_call_instance
    then does (fails "bad_request" ∷ []) s
    else if owned_by_other deps token_name session
    then does (fails "unknown_session" ∷ []) s
    else does (calls_instance instance session method params ∷ []) s

-- The handler of "message".
pub receive : Deps → Option String → Frame → Socket → Socket
unfolding subscribe_frame unsubscribe_found call_frame
receive deps token_name no_method s = does (fails "bad_request" ∷ []) s
receive deps token_name events_subscribe s = does (replies "subscribed" ∷ []) s
receive deps token_name (subscribe instance session raw) s =
    subscribe_frame deps token_name instance session raw s
receive deps token_name (unsubscribe id) s = unsubscribe_found (at id s.taps) id s
receive deps token_name (rpc instance session method params) s =
    call_frame deps token_name instance session method params s

-- After the `await`: a slot that was freed in the meantime has the new tap closed at once.
acknowledge : Option Tap → ℕ → Socket → Socket
acknowledge none id s = does (opens id ∷ closes id ∷ replies "sub_id" ∷ []) s
acknowledge (some tap) id s =
    does (opens id ∷ replies "sub_id" ∷ []) (record s { taps = put id live s.taps })

acknowledged : Option (Unit {0}) → ℕ → Socket → Socket
unfolding acknowledge
acknowledged none id s = s
acknowledged (some w) id s =
    acknowledge (at id s.taps) id (record s { awaited = without id s.awaited })

rejected : Option (Unit {0}) → ℕ → String → Socket → Socket
rejected none id code s = s
rejected (some w) id code s =
    does (fails code ∷ []) (record s { awaited = without id s.awaited; taps = without id s.taps })

-- `push`
abbrev pub push : String → ℕ → Socket → Socket
push event id s = if s.is_open then does (pushes event id ∷ []) s else s

unfoldable pub close_taps : IdMap Tap → List Effect
close_taps [] = []
close_taps ((id, tap) ∷ taps) = close_tap id tap ++ close_taps taps

-- The handler of "close".
close_socket : Socket → Socket
close_socket s = record s { taps = []; is_open = false; effects = s.effects ++ close_taps s.taps }

pub data Happening : Type 0 where
  receives : Frame → Happening
  acked : (sub_id : ℕ) → Happening
  refused : (sub_id : ℕ) → (code : String) → Happening
  upstream_event : (sub_id : ℕ) → Happening
  upstream_close : (sub_id : ℕ) → Happening
  closed : Happening

-- The upstream answers each tap that was asked for once. A frame comes only while the socket is open.
pub step : Deps → Option String → Socket → Happening → Socket
unfolding receive acknowledged rejected close_socket
step deps token_name s (receives frame) = if s.is_open then receive deps token_name frame s else s
step deps token_name s (acked id) = acknowledged (at id s.awaited) id s
step deps token_name s (refused id code) = rejected (at id s.awaited) id code s
step deps token_name s (upstream_event id) = push "herdr_event" id s
step deps token_name s (upstream_close id) =
    push "sub_closed" id (record s { taps = without id s.taps })
step deps token_name s closed = close_socket s

pub run : Deps → Option String → Socket → List Happening → Socket
run deps token_name s [] = s
run deps token_name s (h ∷ hs) = run deps token_name (step deps token_name s h) hs
