-- ===== src/Calls.antt =====
-- How a call reaches an instance: `makeCallInstance` of src/http.ts on the parent, and the request
-- branch of `ParentLink.#route` of src/south.ts on the child.
pub mod Reached
pub mod Redial
pub mod Taps
mod Tests
use herdr_web_broker.Common.{
  ℕ, String, Bool, true, false, not, Option, some, none, List, [], ◌∷◌, any, is_some, str_eq,
  starts_with, if◌then◌else◌,
}
use herdr_web_broker.Common.Dict.{lookup}
use herdr_web_broker.Access.Policy.{method_denied}
use herdr_web_broker.Registry.Data.{Stored}
use herdr_web_broker.Registry as R
use herdr_web_broker.Tunnel.Hub.{Hub}

-- What a call comes to: an error, or the one place that serves it.
pub data Outcome : Type 0 where
  fails : (code : String) → Outcome
  runs_broker_method : (session method : String) → Outcome
  asks_local : (session method : String) → Outcome
  asks_child : (conn : ℕ) → (session method : String) → Outcome

-- `isBrokerMethod`
abbrev pub is_broker_method : String → Bool
is_broker_method method = starts_with method "broker."

call_local : Bool → String → String → Outcome
call_local has_session session method =
    if not has_session
    then fails "unknown_session"
    else if is_broker_method method
    then runs_broker_method session method
    else asks_local session method

call_child : Option Stored → Option ℕ → String → String → Outcome
call_child none child session method = fails "unknown_instance"
call_child (some entry) none session method = fails "instance_offline"
call_child (some entry) (some conn) session method =
    if is_some (lookup session entry.sessions)
    then asks_child conn session method
    else fails "unknown_session"

-- `sessions` are those of the local herdr.
pub call_instance : List String → List String → Hub → String → String → String → Outcome
unfolding call_local call_child
call_instance sessions remote_deny hub instance session method =
    if str_eq instance "runtime"
    then call_local (any (λ s. str_eq s session) sessions) session method
    else if method_denied method remote_deny
    then fails "method_denied"
    else call_child (lookup instance hub.registry.instances) (lookup instance hub.children) session
        method

-- A frame "req" on the child: its own policy first, then the broker's methods, then its herdr.
unfoldable pub route_request : List String → String → String → Outcome
route_request remote_deny session method =
    if method_denied method remote_deny
    then fails "method_denied"
    else if is_broker_method method
    then runs_broker_method session method
    else asks_local session method
