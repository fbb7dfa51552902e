-- ===== src/Ops/Launch.antt =====
-- Parts of `spawn` of src/workspace-ops.ts: the loop around `agent.start`, the samples of the settle window,
-- and the banner of a CLI that has no credentials.
pub mod Starts
use Prim.Native.Char.{code}
use Prim.Native.String as Text
use Prim.Native.String.{String, ◌++◌ as text_append}
use text.Mathlib.Text.{find?}
use herdr_web_broker.Common.{
  ℕ, zero, suc, ◌+◌, ◌*◌, ◌/◌, Bool, true, false, not, ◌&&◌, Option, some, none, List, [], ◌∷◌,
  find, ltb, is_some, or_else, str_eq, nat_eq, if◌then◌else◌,
}
use herdr_web_broker.Access.Errors.{BrokerError}
use herdr_web_broker.Agents.Readiness.{holds_ready}
use herdr_web_broker.Ops.{Result, ok, throws, as_broker_error}
use herdr_web_broker.Ops.Panes.{Entry, entry_in}

-- How the loop around `agent.start` ends: with the agent's name, or the error that it hands on.
pub data Start : Type 0 where
  started : (name : String) → Start
  failed : BrokerError → Start
  out_of_fuel : Start

pub record Naming : Type 0 where
  pub explicit : Bool
  pub kind : String
  pub fallback : String

-- `paneId.split(":").join("")`
unfoldable pub without_colons : String → String
without_colons Text.[] = ""
without_colons (Text.◌∷◌ c s) =
    if nat_eq (code c) 58 then without_colons s else Text.◌∷◌ c (without_colons s)

-- The name that no other pane has.
unfoldable pub pane_name : String → String → String
unfolding without_colons
pane_name kind pane = text_append kind (text_append "-" (without_colons pane))

-- What follows an attempt that failed: once more, under the same name or another, or no more.
pub data Retry : Type 0 where
  again : (name : String) → Retry
  gives_up : Retry

unfoldable pub retry : ℕ → Naming → ℕ → String → BrokerError → Retry
retry busy_retries naming attempt name e =
    if str_eq e.code "agent_pane_busy" && ltb attempt busy_retries
    then again name
    else if str_eq e.code "agent_name_taken" && (not naming.explicit && str_eq name naming.kind)
    then again naming.fallback
    else gives_up

unfoldable pub retried : Retry → BrokerError → (String → Start) → Start
retried (again name) e start = start name
retried gives_up e start = failed e

-- `for (let attempt = 0; ; attempt++)`; `answers` is what `agent.start` answers at each attempt, under
-- the name that it is given.
unfoldable pub start_loop : (ℕ → String → Result (Unit {0})) → ℕ → Naming → ℕ → ℕ → String → Start
unfolding retried
start_loop answers busy_retries naming zero attempt name = out_of_fuel
start_loop answers busy_retries naming (suc fuel) attempt name = elim (answers attempt name) [
  | ok _ ↦ started name
  | throws t ↦
      let e = as_broker_error t in
      retried (retry busy_retries naming attempt name e) e
        (λ other. start_loop answers busy_retries naming fuel (attempt + 1) other)
]

-- The fuel that is enough: every attempt that may meet a busy pane, one more, and one under the
-- pane's own name.
pub start_agent : (ℕ → String → Result (Unit {0})) → ℕ → Naming → Option String → Start
unfolding start_loop
start_agent answers busy_retries naming name =
    start_loop answers busy_retries naming (suc (suc busy_retries)) 0 (or_else name naming.kind)

-- `Math.max(250, Math.floor(settleMs / 3))`
abbrev pub gap_of : ℕ → ℕ
gap_of settle_ms = if ltb 250 (settle_ms / 3) then settle_ms / 3 else 250

-- What `agent.list` says of the pane's readiness; a failed call says nothing.
abbrev pub sample_of : String → Result (List Entry) → Option Bool
sample_of pane (throws e) = none
sample_of pane (ok entries) = elim (entry_in pane entries) [
  | none ↦ none
  | some e ↦ e.interactive_ready
]

-- `for (let i = 0; i * gap < settleMs; i++)`
unfoldable pub take_samples : (ℕ → Result (List Entry)) → String → ℕ → ℕ → ℕ → List (Option Bool)
take_samples lists pane settle_ms zero i = []
take_samples lists pane settle_ms (suc fuel) i =
    let rest = sample_of pane (lists i) ∷ take_samples lists pane settle_ms fuel (i + 1) in
    if ltb (i * gap_of settle_ms) settle_ms then rest else []

-- Five rounds are enough, see `Starts`.
unfoldable pub settles : (ℕ → Result (List Entry)) → String → ℕ → Bool
unfolding take_samples
settles lists pane settle_ms = holds_ready (take_samples lists pane settle_ms 5 0)

-- `authMarkers.find((m) => text.includes(m))`
unfoldable pub banner : List String → String → Option String
banner markers screen = find (λ m. is_some (find? screen m)) markers
