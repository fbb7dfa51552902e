-- ===== src/Registry/File.antt =====
-- registry.json: the JSON that `#flush` of src/registry.ts writes, and how `load` reads it. A status
-- on disk is any text or missing, and `sessions` and `agents` may be missing.
use herdr_web_broker.Common.{
  ◌≡◌, refl, String, Bool, false, Option, some, none, List, [], ◌∷◌, map, str_eq, or_else,
  if◌then◌else◌,
}
use herdr_web_broker.Common.Dict.{Dict}
use herdr_web_broker.Common.Dict.Distinct.{map_values}
use herdr_web_broker.Registry.Data.{AgentStatus, working, blocked, idle, AgentInfo, Stored}

pub record RawAgent : Type 0 where
  pub id : String
  pub title : String
  pub status : Option String
  pub raw_status : Option String
  pub interactive_ready : Option Bool
  pub launch_pending : Option Bool

pub record RawSession : Type 0 where
  pub agents : Option (List RawAgent)

pub record RawStored : Type 0 where
  pub online : Bool
  pub as_of : String
  pub platform : String
  pub herdr_version : String
  pub sessions : Option (Dict RawSession)

pub coerce_status : Option String → AgentStatus
coerce_status none = idle
coerce_status (some s) =
    if str_eq s "working" then working else if str_eq s "blocked" then blocked else idle

abbrev pub status_text : AgentStatus → String
status_text working = "working"
status_text blocked = "blocked"
status_text idle = "idle"

-- `{ ...a, status: coerceStatus(a.status) }`
read_agent : RawAgent → AgentInfo
unfolding coerce_status
read_agent a = record {
  id = a.id;
  title = a.title;
  status = coerce_status a.status;
  raw_status = a.raw_status;
  interactive_ready = a.interactive_ready;
  launch_pending = a.launch_pending;
}

read_session : RawSession → List AgentInfo
unfolding read_agent
read_session s = map read_agent (or_else s.agents [])

-- One round of the loop of `load`: the entry comes back offline.
unfoldable pub read_entry : RawStored → Stored
unfolding read_session
read_entry e = record {
  online = false;
  as_of = e.as_of;
  platform = e.platform;
  herdr_version = e.herdr_version;
  sessions = map_values read_session (or_else e.sessions []);
}

abbrev write_agent : AgentInfo → RawAgent
write_agent a = record {
  id = a.id;
  title = a.title;
  status = some (status_text a.status);
  raw_status = a.raw_status;
  interactive_ready = a.interactive_ready;
  launch_pending = a.launch_pending;
}

abbrev write_session : List AgentInfo → RawSession
write_session agents = record { agents = some (map write_agent agents) }

-- `JSON.stringify` keeps every field that is present.
pub write_entry : Stored → RawStored
write_entry e = record {
  online = e.online;
  as_of = e.as_of;
  platform = e.platform;
  herdr_version = e.herdr_version;
  sessions = some (map_values write_session e.sessions);
}

read-write_status : (s : AgentStatus) → coerce_status (some (status_text s)) ≡ s
unfolding coerce_status
read-write_status working = refl
read-write_status blocked = refl
read-write_status idle = refl

read-write_agents : (as' : List AgentInfo) → map read_agent (map write_agent as') ≡ as'
unfolding read_agent
read-write_agents [] = refl
read-write_agents (a ∷ rest) = rw (read-write_status a.status, read-write_agents rest)

read-write_sessions :
    (m : Dict (List AgentInfo)) → map_values read_session (map_values write_session m) ≡ m
unfolding map_values read_session
read-write_sessions [] = refl
read-write_sessions ((k, agents) ∷ m) = rw (read-write_agents agents, read-write_sessions m)

-- An entry that was written comes back as it was, but offline.
pub read-write_entry : (e : Stored) → read_entry (write_entry e) ≡ record e { online = false }
unfolding read_entry write_entry
read-write_entry e = rw (read-write_sessions e.sessions)

unfoldable pub read_entry_offline :
    (e : RawStored) → record (read_entry e) { online = false } ≡ read_entry e
unfolding read_entry
read_entry_offline e = refl
