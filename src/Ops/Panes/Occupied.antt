-- ===== src/Ops/Panes/Occupied.antt =====
-- `agentInPane` of src/workspace-ops.ts: what it found.
use herdr_web_broker.Common.{
  ℕ, zero, suc, ◌+◌, ◌≡◌, refl, String, Option, some, none, List, [], ◌∷◌, opt_eq, opt_eq→eq, inl,
  inr, Bool-cases, ◌⊎◌,
}
use herdr_web_broker.State.Resumable.{truthy}
use herdr_web_broker.Ops.{Result, ok, throws, ◌>>=◌}
use herdr_web_broker.Ops.Panes.{Entry, entry_in, named, fallback, seen, listed, poll, agent_in_pane}

-- An entry is the pane's, and its kind or else its name is the text given.
abbrev pub Occupies : String → String × Entry → Type 0
Occupies pane (kind, e) =
    (e.pane_id ≡ some pane) × ((truthy e.agent ≡ some kind) ⊎ (truthy e.name ≡ some kind))

abbrev pub Finds : (String × Entry → Type 0) → Result (String × Entry) → Type 0
Finds P (ok found) = P found
Finds P (throws e) = Unit

abbrev IsIn : String → Option Entry → Type 0
IsIn pane none = Unit
IsIn pane (some e) = e.pane_id ≡ some pane

entry_in-IsIn : (pane : String) (entries : List Entry) → IsIn pane (entry_in pane entries)
entry_in-IsIn pane [] = tt
entry_in-IsIn pane (x ∷ entries) = elim (Bool-cases (opt_eq x.pane_id (some pane))) [
  | inl here ↦ rw here (opt_eq→eq x.pane_id (some pane) here)
  | inr elsewhere ↦ rw elsewhere (entry_in-IsIn pane entries)
]

module _ (pane : String) where
  named-Occupies :
      (o : Option String) (e : Entry)
      → truthy e.name ≡ o
      → e.pane_id ≡ some pane
      → Finds (Occupies pane) (named o e)
  unfolding named
  named-Occupies none e name here = tt
  named-Occupies (some name) e is_named here = (here, inr is_named)

  fallback-Occupies : (last : Option Entry) → IsIn pane last → Finds (Occupies pane) (fallback last)
  unfolding fallback
  fallback-Occupies none h = tt
  fallback-Occupies (some e) here = named-Occupies (truthy e.name) e refl here

  seen-Occupies :
      (o : Option String) (e : Entry) (again : Entry → Result (String × Entry))
      → truthy e.agent ≡ o
      → e.pane_id ≡ some pane
      → Finds (Occupies pane) (again e)
      → Finds (Occupies pane) (seen o e again)
  unfolding seen
  seen-Occupies none e again agent here h = h
  seen-Occupies (some kind) e again agent here h = (here, inl agent)

  listed-Occupies :
      (o : Option Entry) (again : Entry → Result (String × Entry))
      → IsIn pane o
      → ((e : Entry) → e.pane_id ≡ some pane → Finds (Occupies pane) (again e))
      → Finds (Occupies pane) (listed o again)
  unfolding listed
  listed-Occupies none again here h = tt
  listed-Occupies (some e) again here h =
      seen-Occupies (truthy e.agent) e again refl here (h e here)

  poll-Occupies :
      (polls : ℕ → Result (List Entry)) (left attempt : ℕ) (last : Option Entry)
      → IsIn pane last
      → Finds (Occupies pane) (poll polls pane left attempt last)
  unfolding poll
  poll-Occupies polls zero attempt last h = fallback-Occupies last h
  poll-Occupies polls (suc left) attempt last h =
      at_attempt (polls attempt) (λ e here. poll-Occupies polls left (attempt + 1) (some e) here)
    where
      at_attempt :
          (answer : Result (List Entry))
          → ((e : Entry)
              → e.pane_id ≡ some pane
              → Finds (Occupies pane) (poll polls pane left (attempt + 1) (some e)))
          → Finds (Occupies pane) (
              answer >>= λ entries.
              listed (entry_in pane entries) (λ e. poll polls pane left (attempt + 1) (some e)))
      at_attempt (throws e) again = tt
      at_attempt (ok entries) again =
          listed-Occupies (entry_in pane entries) _ (entry_in-IsIn pane entries) again

-- Whatever herdr answers, an agent that is found was listed in that very pane, and its kind is the one
-- that it was listed with, or its name where no kind was listed.
pub agent_in_pane-Occupies :
    (polls : ℕ → Result (List Entry)) (pane : String)
    → Finds (Occupies pane) (agent_in_pane polls pane)
unfolding agent_in_pane
agent_in_pane-Occupies polls pane = poll-Occupies pane polls 3 0 none tt
