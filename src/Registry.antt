-- ===== src/Registry.antt =====
-- src/registry.ts: the instance registry. Each operation takes the ISO time that the source reads
-- from the clock, and returns the new registry; what it emits is appended to `emitted`, and what it
-- writes to `persistPath` is `file`, `none` for one that is missing or does not parse.
pub mod Data
pub mod File
pub mod Agents
pub mod Synced
pub mod Transitions
pub mod Tally
pub mod Standing
mod Tests
use herdr_web_broker.Common.{
  ℕ, suc, String, Bool, true, false, Option, some, none, List, [], ◌∷◌, ◌++◌, map, str_eq, or_else,
  if◌then◌else◌,
}
use herdr_web_broker.Common.Dict.{Dict, lookup, insert, remove, keys}
use herdr_web_broker.Common.Dict.Distinct.{insert_all, map_values}
use Data.{
  AgentStatus, working, blocked, idle, AgentInfo, SessionSnapshot, InstanceSnapshot, Stored, Event,
  online, snapshot, offline, agent_status, session_added, session_removed, Counts, Summary,
}
use File.{RawStored, read_entry, write_entry}

pub record Registry : Type 0 where
  pub persist : Bool
  pub instances : Dict Stored
  pub file : Option (Dict RawStored)
  pub emitted : List Event

-- `new Registry(persistPath)` over what the path holds.
pub new : Bool → Option (Dict RawStored) → Registry
new persist file = record { persist = persist; instances = []; file = file; emitted = [] }

abbrev pub online_flag : Option Stored → Bool
online_flag none = false
online_flag (some entry) = entry.online

-- `get(instance)?.online ?? false`
abbrev pub is_online : String → Registry → Bool
is_online instance r = online_flag (lookup instance r.instances)

pub flush : Registry → Registry
flush r = if r.persist then record r { file = some (map_values write_entry r.instances) } else r

pub emit : Event → Registry → Registry
emit e r = record r { emitted = r.emitted ++ e ∷ [] }

abbrev pub session_entry : SessionSnapshot → String × List AgentInfo
session_entry s = (s.name, s.agents)

abbrev pub snapshot_entry : InstanceSnapshot → String → Stored
snapshot_entry snap now = record {
  online = true;
  as_of = now;
  platform = snap.platform;
  herdr_version = snap.herdr_version;
  sessions = insert_all [] (map session_entry snap.sessions);
}

pub replace_snapshot : String → InstanceSnapshot → String → Registry → Registry
unfolding flush emit
replace_snapshot instance snap now r =
    let was_online = is_online instance r in
    let entry = snapshot_entry snap now in
    let written = flush (record r { instances = insert instance entry r.instances }) in
    emit (snapshot instance) (if was_online then written else emit (online instance) written)

-- `findIndex` by id, then `push` or overwrite.
pub put_agent : AgentInfo → List AgentInfo → List AgentInfo
put_agent agent [] = agent ∷ []
put_agent agent (a ∷ rest) = if str_eq a.id agent.id then agent ∷ rest else a ∷ put_agent agent rest

change_entry :
    Option Stored
    → String
    → String
    → (Dict (List AgentInfo) → Dict (List AgentInfo))
    → Event
    → Registry
    → Registry
unfolding flush emit
change_entry none instance now change e r = r
change_entry (some entry) instance now change e r = emit e (
    flush (record r {
      instances =
          insert instance (record entry { sessions = change entry.sessions; as_of = now })
            r.instances;
    }))

-- What the three updates share: an unknown instance is left alone, and a known entry is changed in
-- place, touched, flushed and announced.
pub update_entry :
    String → String → (Dict (List AgentInfo) → Dict (List AgentInfo)) → Event → Registry → Registry
unfolding change_entry
update_entry instance now change e r =
    change_entry (lookup instance r.instances) instance now change e r

-- `entry.sessions[session] ??= { agents: [] }`
abbrev agents_of : String → Dict (List AgentInfo) → List AgentInfo
agents_of session sessions = or_else (lookup session sessions) []

pub apply_agent_status : String → String → AgentInfo → String → Registry → Registry
apply_agent_status instance session agent now =
    update_entry instance now
      (λ sessions. insert session (put_agent agent (agents_of session sessions)) sessions)
      (agent_status instance session agent)

pub apply_session_added : String → SessionSnapshot → String → Registry → Registry
apply_session_added instance session now =
    update_entry instance now (insert session.name session.agents) (session_added instance session)

pub apply_session_removed : String → String → String → Registry → Registry
apply_session_removed instance session now =
    update_entry instance now (remove session) (session_removed instance session)

pub offline_entry : Option Stored → String → Registry → Registry
unfolding flush emit
offline_entry none instance r = r
offline_entry (some entry) instance r =
    if entry.online
    then emit (offline instance) (
        flush
          (record r { instances = insert instance (record entry { online = false }) r.instances }))
    else r

pub set_offline : String → Registry → Registry
unfolding offline_entry
set_offline instance r = offline_entry (lookup instance r.instances) instance r

-- Boot from persisted stale data. A missing or corrupt file leaves the registry as it was.
abbrev load_entries : Option (Dict RawStored) → Dict Stored → Dict Stored
load_entries none instances = instances
load_entries (some entries) instances = insert_all instances (map_values read_entry entries)

pub load : Registry → Registry
load r = if r.persist then record r { instances = load_entries r.file r.instances } else r

pub data Call : Type 0 where
  replaces : (instance : String) → InstanceSnapshot → (now : String) → Call
  applies_status : (instance session : String) → AgentInfo → (now : String) → Call
  adds_session : (instance : String) → SessionSnapshot → (now : String) → Call
  removes_session : (instance session now : String) → Call
  goes_offline : (instance : String) → Call

pub step : Registry → Call → Registry
step r (replaces instance snap now) = replace_snapshot instance snap now r
step r (applies_status instance session agent now) = apply_agent_status instance session agent now r
step r (adds_session instance session now) = apply_session_added instance session now r
step r (removes_session instance session now) = apply_session_removed instance session now r
step r (goes_offline instance) = set_offline instance r

pub run : Registry → List Call → Registry
run r [] = r
run r (c ∷ cs) = run (step r c) cs

abbrev pub zero_counts : Counts
zero_counts = record { working = 0; blocked = 0; idle = 0 }

abbrev count_one : Counts → AgentStatus → Counts
count_one c working = record c { working = suc c.working }
count_one c blocked = record c { blocked = suc c.blocked }
count_one c idle = record c { idle = suc c.idle }

pub count_agents : Counts → List AgentInfo → Counts
count_agents c [] = c
count_agents c (a ∷ rest) = count_agents (count_one c a.status) rest

pub count_sessions : Counts → Dict (List AgentInfo) → Counts
unfolding count_agents
count_sessions c [] = c
count_sessions c ((_, agents) ∷ sessions) = count_sessions (count_agents c agents) sessions

pub counts : String → Registry → Counts
unfolding count_sessions
counts instance r = elim (lookup instance r.instances) [
  | none ↦ zero_counts
  | some entry ↦ count_sessions zero_counts entry.sessions
]

pub rollup : Registry → List Summary
rollup r = map summary r.instances
  where
    summary : String × Stored → Summary
    summary (name, entry) = record {
      instance_name = name;
      online = entry.online;
      as_of = entry.as_of;
      counts = counts name r;
    }
