-- ===== src/Registry/Data.antt =====
-- The types of src/registry.ts.
use herdr_web_broker.Common.{ℕ, String, Bool, Option, List}
use herdr_web_broker.Common.Dict.{Dict}

pub data AgentStatus : Type 0 where
  working blocked idle : AgentStatus

pub record AgentInfo : Type 0 where
  pub id : String
  pub title : String
  pub status : AgentStatus
  pub raw_status : Option String
  pub interactive_ready : Option Bool
  pub launch_pending : Option Bool

pub record SessionSnapshot : Type 0 where
  pub name : String
  pub agents : List AgentInfo

pub record InstanceSnapshot : Type 0 where
  pub platform : String
  pub herdr_version : String
  pub sessions : List SessionSnapshot

-- A session object has one field, so it is its list of agents.
pub record Stored : Type 0 where
  pub online : Bool
  pub as_of : String
  pub platform : String
  pub herdr_version : String
  pub sessions : Dict (List AgentInfo)

pub data Event : Type 0 where
  online snapshot offline : (instance_name : String) → Event
  agent_status : (instance_name session : String) → AgentInfo → Event
  session_added : (instance_name : String) → SessionSnapshot → Event
  session_removed : (instance_name session : String) → Event

pub record Counts : Type 0 where
  pub working : ℕ
  pub blocked : ℕ
  pub idle : ℕ

pub record Summary : Type 0 where
  pub instance_name : String
  pub online : Bool
  pub as_of : String
  pub counts : Counts
