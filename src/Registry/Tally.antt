-- ===== src/Registry/Tally.antt =====
-- `counts` and `rollup` of src/registry.ts.
use herdr_web_broker.Common.{
  ℕ, ◌+◌, ◌≡◌, refl, String, Bool, true, false, Option, some, none, List, [], ◌∷◌, ◌++◌, map, arith,
  length, filter, find, str_eq, eq_iff, if◌then◌else◌, Option-cases, inl, inr,
}
use mathlib.Core.Option
use herdr_web_broker.Common.Dict.{Dict, lookup}
use herdr_web_broker.Registry.Data.{
  AgentInfo, AgentStatus, working, blocked, idle, Stored, Counts, Summary,
}
use herdr_web_broker.Registry.{
  Registry, count_one, zero_counts, count_agents, count_sessions, counts, rollup,
}

abbrev pub same_status : AgentStatus → AgentStatus → Bool
same_status working working = true
same_status blocked blocked = true
same_status idle idle = true
same_status _ _ = false

abbrev pub at_status : AgentStatus → Counts → ℕ
at_status working c = c.working
at_status blocked c = c.blocked
at_status idle c = c.idle

-- Every agent that an entry lists, session by session.
abbrev pub all_agents : Dict (List AgentInfo) → List AgentInfo
all_agents [] = []
all_agents ((_, agents) ∷ sessions) = agents ++ all_agents sessions

abbrev pub entry_agents : Option Stored → List AgentInfo
entry_agents none = []
entry_agents (some entry) = all_agents entry.sessions

abbrev pub with_status : AgentStatus → List AgentInfo → ℕ
with_status st agents = length (filter (λ a. same_status a.status st) agents)

count_one_status :
    (st s : AgentStatus) (c : Counts)
    → at_status st (count_one c s) ≡ at_status st c + (if same_status s st then 1 else 0)
count_one_status st s c = ground arith

count_agents-with_status :
    (st : AgentStatus) (c : Counts) (agents : List AgentInfo)
    → at_status st (count_agents c agents) ≡ at_status st c + with_status st agents
unfolding count_agents
count_agents-with_status st c [] = omega arith
count_agents-with_status st c (a ∷ rest) =
    ground (
      arith,
      count_agents-with_status st (count_one c a.status) rest,
      count_one_status st a.status c,
    )

with_status-append :
    (st : AgentStatus) (xs ys : List AgentInfo)
    → with_status st (xs ++ ys) ≡ with_status st xs + with_status st ys
with_status-append st [] ys = omega arith
with_status-append st (x ∷ xs) ys = ground (arith, with_status-append st xs ys)

count_sessions-with_status :
    (st : AgentStatus) (c : Counts) (m : Dict (List AgentInfo))
    → at_status st (count_sessions c m) ≡ at_status st c + with_status st (all_agents m)
unfolding count_sessions
count_sessions-with_status st c [] = omega arith
count_sessions-with_status st c ((k, agents) ∷ m) = omega (
  arith,
  count_sessions-with_status st (count_agents c agents) m,
  count_agents-with_status st c agents,
  with_status-append st agents (all_agents m),
)

at_status_zero : (st : AgentStatus) → at_status st zero_counts ≡ 0
at_status_zero st = ground arith

-- For every status, the count that is reported for an instance is the number of agents of that
-- status among all those that its sessions list; it is 0 for an instance with no entry.
pub counts-with_status :
    (st : AgentStatus) (i : String) (r : Registry)
    → at_status st (counts i r) ≡ with_status st (entry_agents (lookup i r.instances))
unfolding counts
counts-with_status st i r = elim (Option-cases (lookup i r.instances)) [
  | inl missing ↦ rw (missing, counts) (at_status_zero st)
  | inr (entry, found) ↦
      rw (found, counts)
        (omega (arith, count_sessions-with_status st zero_counts entry.sessions, at_status_zero st))
]

abbrev pub row : String → Registry → Stored → Summary
row i r entry = record {
  instance_name = i;
  online = entry.online;
  as_of = entry.as_of;
  counts = counts i r;
}

abbrev rows : Registry → Dict Stored → List Summary
rows r = map (λ e. row e.0 r e.1)

find-row :
    (i : String) (r : Registry) (m : Dict Stored)
    → find (λ s. str_eq s.instance_name i) (rows r m) ≡ Option.map (row i r) (lookup i m)
unfolding lookup
find-row i r [] = refl
find-row i r ((j, entry) ∷ m) = ground (arith, eq_iff j i, find-row i r m)

-- The rollup has a row for an instance exactly if the registry has an entry for it, and the first
-- such row shows that entry's standing and time and the instance's counts.
pub rollup-row :
    (i : String) (r : Registry)
    → find (λ s. str_eq s.instance_name i) (rollup r) ≡ Option.map (row i r) (lookup i r.instances)
unfolding rollup
rollup-row i r = find-row i r r.instances
