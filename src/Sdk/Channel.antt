-- ===== src/Sdk/Channel.antt =====
-- packages/client/src/events.ts: `EventChannel`, the socket of a client with its calls and subscriptions. Sockets,
-- timers and groups have serial numbers, and a promise goes on in the step that settles it.
pub mod Steps
pub mod Counts
pub mod Accounts
mod Tests
pub mod Settled
use herdr_web_broker.Common.{
  ℕ, ◌+◌, ◌*◌, ◌^◌, min, String, Bool, true, false, ◌||◌, Option, some, none, List, [], ◌∷◌, ◌++◌,
  str_eq, if◌then◌else◌,
}
use herdr_web_broker.Common.Dict.{Dict, lookup, insert, remove}
use herdr_web_broker.Common.IdMap.{IdMap, at, put, without}

-- What awaits the answer of a call: the caller, or a step of a subscription's group.
pub data Purpose : Type 0 where
  plain : Purpose
  subscribes : (group : ℕ) → Purpose
  resubscribes : (group : ℕ) → Purpose
  unsubscribes : Purpose

pub data Effect : Type 0 where
  opens : (socket : ℕ) → Effect
  closes : (socket : ℕ) → Effect
  sends : (id : ℕ) → (socket : ℕ) → Effect
  resolves : (id : ℕ) → Effect
  rejects : (id : ℕ) → Effect
  -- A call while the socket is not open.
  refuses : Effect
  probes : Effect
  waits : (timer : ℕ) → (delay : ℕ) → Effect
  emits : String → Effect
  delivers : (group : ℕ) → Effect
  retires : (group : ℕ) → Effect

pub record Channel : Type 0 where
  pub wanted : Bool
  pub attempts : ℕ
  pub next_id : ℕ
  -- `#ws`, how many sockets there have been, and those of them that are open.
  pub ws : Option ℕ
  pub sockets : ℕ
  pub opened : IdMap (Unit {0})
  -- `#reconnect`, how many timers there have been, and those that have not fired.
  pub reconnect : Option ℕ
  pub timers : ℕ
  pub running : IdMap (Unit {0})
  pub pending : IdMap Purpose
  -- `#groups`, how many groups there have been, their `subId`, and `#bySubId`.
  pub groups : IdMap (Unit {0})
  pub group_count : ℕ
  pub sub_ids : IdMap String
  pub by_sub_id : Dict ℕ
  pub effects : List Effect

abbrev pub new_channel : Channel
new_channel = record {
  wanted = false;
  attempts = 0;
  next_id = 1;
  ws = none;
  sockets = 0;
  opened = [];
  reconnect = none;
  timers = 0;
  running = [];
  pending = [];
  groups = [];
  group_count = 0;
  sub_ids = [];
  by_sub_id = [];
  effects = [];
}

abbrev pub does : List Effect → Channel → Channel
does es c = record c { effects = c.effects ++ es }

-- `#open()`
abbrev pub open_up : Channel → Channel
open_up c = does (opens c.sockets ∷ []) (record c { ws = some c.sockets; sockets = c.sockets + 1 })

abbrev pub connect : Channel → Channel
connect c = if c.wanted then c else open_up (record c { wanted = true })

abbrev pub closing : Option ℕ → List Effect
closing none = []
closing (some socket) = closes socket ∷ []

abbrev pub cleared : Option ℕ → IdMap (Unit {0}) → IdMap (Unit {0})
cleared none running = running
cleared (some timer) running = without timer running

-- `close()`; the socket is closing from now on, so it is no longer open.
unfoldable pub close : Channel → Channel
close c = does (closing c.ws) (record c {
  wanted = false;
  running = cleared c.reconnect c.running;
  opened = cleared c.ws c.opened;
  ws = none;
})

-- `this.#ws.readyState === 1`
unfoldable pub open_socket : Option ℕ → IdMap (Unit {0}) → Option ℕ
open_socket none opened = none
open_socket (some socket) opened = elim (at socket opened) [ none ↦ none | some o ↦ some socket ]

-- How what awaits a call goes on when it is rejected.
unfoldable pub give_up : Purpose → Channel → Channel
give_up plain c = c
give_up (subscribes g) c = c
give_up (resubscribes g) c = does (retires g ∷ []) (record c { groups = without g c.groups })
give_up unsubscribes c = c

-- `rpc(...)`, where `socket` is the current one if it is open.
unfoldable pub rpc_on : Option ℕ → Purpose → Channel → Channel
unfolding give_up
rpc_on none p c = give_up p (does (refuses ∷ []) c)
rpc_on (some socket) p c =
    does (sends c.next_id socket ∷ [])
      (record c { next_id = c.next_id + 1; pending = put c.next_id p c.pending })

abbrev pub rpc : Purpose → Channel → Channel
rpc p c = rpc_on (open_socket c.ws c.opened) p c

abbrev pub forget_sub_id : Option String → Dict ℕ → Dict ℕ
forget_sub_id none subs = subs
forget_sub_id (some sub_id) subs = remove sub_id subs

-- A turn of the loop of `#resubscribeAll`.
unfoldable pub resubscribe : ℕ → Channel → Channel
unfolding rpc_on open_socket
resubscribe g c = rpc (resubscribes g) (record c {
  by_sub_id = forget_sub_id (at g c.sub_ids) c.by_sub_id;
  sub_ids = without g c.sub_ids;
})

unfoldable pub resubscribe_all : IdMap (Unit {0}) → Channel → Channel
unfolding resubscribe
resubscribe_all [] c = c
resubscribe_all ((g, member) ∷ gs) c = resubscribe_all gs (resubscribe g c)

-- `ws.onopen`
unfoldable pub on_open : ℕ → Channel → Channel
unfolding resubscribe_all
on_open socket c =
    resubscribe_all c.groups
      (does (emits "open" ∷ []) (record c { attempts = 0; opened = put socket tt c.opened }))

unfoldable pub give_up_all : IdMap Purpose → Channel → Channel
unfolding give_up
give_up_all [] c = c
give_up_all ((id, p) ∷ ps) c = give_up_all ps (give_up p c)

unfoldable pub reject_all : IdMap Purpose → List Effect
reject_all [] = []
reject_all ((id, p) ∷ ps) = rejects id ∷ reject_all ps

-- `ws.onclose`; the probe of `#maybeReconnect` is sent at once, and the callers go on after that.
unfoldable pub on_close : ℕ → Channel → Channel
unfolding give_up_all reject_all
on_close socket c =
    let rejected = emits "close" ∷ reject_all c.pending in
    give_up_all c.pending (
      does (rejected ++ (if c.wanted then probes ∷ [] else []))
        (record c { opened = without socket c.opened; pending = [] }))

-- `Math.min(1_000 * 2 ** attempts, 30_000)`, and the random part of the delay.
abbrev pub delay_of : ℕ → ℕ → ℕ
delay_of attempts jitter = min (1000 * (2 ^ attempts)) 30000 + jitter

-- The rest of `#maybeReconnect`, once the probe has its answer: whether its status is 401.
unfoldable pub on_probe : (is_revoked : Bool) → (jitter : ℕ) → Channel → Channel
on_probe true jitter c = does (emits "auth_failed" ∷ []) (record c { wanted = false })
on_probe false jitter c =
    if c.wanted
    then does (waits c.timers (delay_of c.attempts jitter) ∷ []) (record c {
      attempts = c.attempts + 1;
      reconnect = some c.timers;
      timers = c.timers + 1;
      running = put c.timers tt c.running;
    })
    else c

abbrev pub fired : Option (Unit {0}) → ℕ → Channel → Channel
fired none timer c = c
fired (some r) timer c = open_up (record c { running = without timer c.running })

unfoldable pub on_timer : ℕ → Channel → Channel
on_timer timer c = fired (at timer c.running) timer c
