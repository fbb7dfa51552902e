-- ===== src/Ops/Panes.antt =====
-- `agentInPane` of src/workspace-ops.ts: who is in a pane. A field of an entry is there if it is a text,
-- or a Boolean. `polls` is what `agent.list` answers at each attempt.
pub mod Occupied
use herdr_web_broker.Common.{
  ℕ, zero, suc, ◌+◌, String, Bool, Option, some, none, List, [], ◌∷◌, find, opt_eq, or_else,
}
use herdr_web_broker.State.Resumable.{truthy}
use herdr_web_broker.Ops.{Result, ok, throws, fail, ◌>>=◌}

pub record Entry : Type 0 where
  pub pane_id : Option String
  pub name : Option String
  pub agent : Option String
  pub agent_status : Option String
  pub interactive_ready : Option Bool

-- `agents?.find((a) => a.pane_id === pane)`
abbrev pub entry_in : String → List Entry → Option Entry
entry_in pane = find (λ e. opt_eq e.pane_id (some pane))

-- The agent's name stands for its kind, once it was listed without one at every attempt.
unfoldable named : Option String → Entry → Result (String × Entry)
named none e = fail "upstream_error" "agent reports no kind"
named (some name) e = ok (name, e)

unfoldable fallback : Option Entry → Result (String × Entry)
unfolding named
fallback none = fail "upstream_error" "agent reports no kind"
fallback (some e) = named (truthy e.name) e

unfoldable seen :
    Option String → Entry → (Entry → Result (String × Entry)) → Result (String × Entry)
seen none e again = again e
seen (some kind) e again = ok (kind, e)

unfoldable listed : Option Entry → (Entry → Result (String × Entry)) → Result (String × Entry)
unfolding seen
listed none again = fail "bad_request" "no agent in pane"
listed (some e) again = seen (truthy e.agent) e again

-- The loop, with the attempts left, the attempt, and the entry of the one before.
unfoldable poll :
    (ℕ → Result (List Entry)) → String → ℕ → ℕ → Option Entry → Result (String × Entry)
unfolding listed fallback
poll polls pane zero attempt last = fallback last
poll polls pane (suc left) attempt last = polls attempt >>= λ entries.
    listed (entry_in pane entries) (λ e. poll polls pane left (attempt + 1) (some e))

pub agent_in_pane : (ℕ → Result (List Entry)) → String → Result (String × Entry)
unfolding poll
agent_in_pane polls pane = poll polls pane 3 0 none

-- `typeof entry.name === "string" && entry.name ? entry.name : String(entry.agent ?? other)`
abbrev pub target_of : String → Entry → String
target_of other e = or_else (truthy e.name) (or_else e.agent other)
