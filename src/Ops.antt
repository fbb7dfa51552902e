-- ===== src/Ops.antt =====
-- src/workspace-ops.ts: the operations that run on the instance that owns the disk. A call of the local
-- herdr is what it answers or throws, an argument of the operation; the three indexes of src/state.ts
-- and the locks of `ask` are the world. What happens while a call is awaited is in the world that the
-- rest of the operation gets.
pub mod Reap
pub mod Panes
pub mod Workspaces
pub mod Stop
pub mod Values
pub mod Ask
pub mod Drivers
pub mod Polls
pub mod Resume
pub mod Placement
pub mod Launch
pub mod Spawn
pub mod Demolish
mod Tests
use Prim.Native.Char.{code}
use Prim.Native.String as Text
use Prim.Native.String.{String}
use herdr_web_broker.Common.{Bool, true, false, List, [], ◌∷◌, nat_eq, str_eq, if◌then◌else◌}
use herdr_web_broker.State.{Index, WorkspaceMeta, AgentMeta}
use herdr_web_broker.State.Resumable.{ResumableMeta}
use herdr_web_broker.Access.Errors.{BrokerError}

pub record World : Type 0 where
  pub index : Index WorkspaceMeta
  pub agents : Index AgentMeta
  pub resumable : Index ResumableMeta
  pub ask_locks : List String

-- What a `catch` gets: a `BrokerError`, or any other value, with its text.
pub data Thrown : Type 0 where
  broker : BrokerError → Thrown
  foreign : (text : String) → Thrown

pub data Result {ℓ} (A : Type ℓ) : Type ℓ where
  ok : A → Result A
  throws : Thrown → Result A

abbrev pub fail {ℓ} : {A : Type ℓ} → String → String → Result A
fail code message = throws (broker (record { code = code; message = message; details = [] }))

infixl 5 ◌>>=◌
abbrev pub ◌>>=◌ {ℓ κ} : {A : Type ℓ} {B : Type κ} → Result A → (A → Result B) → Result B
ok a >>= f = f a
throws e >>= f = throws e

abbrev pub is_ok {ℓ} : {A : Type ℓ} → Result A → Bool
is_ok (ok a) = true
is_ok (throws e) = false

-- `e instanceof BrokerError && e.code === code`
abbrev pub has_code : String → Thrown → Bool
has_code code (broker e) = str_eq e.code code
has_code code (foreign text) = false

-- `e instanceof BrokerError ? e : new BrokerError("upstream_error", String(e))`
abbrev pub as_broker_error : Thrown → BrokerError
as_broker_error (broker e) = e
as_broker_error (foreign text) = record { code = "upstream_error"; message = text; details = [] }

-- `pane.split(":")[0]`
unfoldable pub workspace_of : String → String
workspace_of Text.[] = ""
workspace_of (Text.◌∷◌ c s) = if nat_eq (code c) 58 then "" else Text.◌∷◌ c (workspace_of s)
