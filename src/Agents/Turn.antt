-- ===== src/Agents/Turn.antt =====
-- `decideTurn` of src/transcript.ts: what evidence says of an agent's turn. Times are in ms.
use herdr_web_broker.Common.{ℕ, String, Option, some, none, leb, or_else, if◌then◌else◌}

pub data TranscriptStatus : Type 0 where
  working blocked done : TranscriptStatus

pub record TranscriptState : Type 0 where
  pub state : TranscriptStatus
  pub last_record_at : ℕ

-- The fold of the statuses that the wire has, with its text.
pub data TurnStatus : Type 0 where
  is_working is_blocked is_idle : TurnStatus

abbrev pub status_text : TurnStatus → String
status_text is_working = "working"
status_text is_blocked = "blocked"
status_text is_idle = "idle"

pub data Evidence : Type 0 where
  transcript status : Evidence

pub record Decision : Type 0 where
  pub status : TurnStatus
  pub raw_status : String
  pub evidence : Evidence

abbrev pub proven : TranscriptStatus → Decision
proven done = record { status = is_idle; raw_status = "done"; evidence = transcript }
proven working = record { status = is_working; raw_status = "working"; evidence = transcript }
proven blocked = record { status = is_blocked; raw_status = "blocked"; evidence = transcript }

abbrev pub inferred : TurnStatus → Option String → Decision
inferred tier raw = record {
  status = tier;
  raw_status = or_else raw (status_text tier);
  evidence = status;
}

unfoldable pub decide_turn : Option TranscriptState → TurnStatus → Option String → ℕ → Decision
decide_turn none tier raw prompted_at = inferred tier raw
decide_turn (some t) tier raw prompted_at =
    if leb prompted_at t.last_record_at then proven t.state else inferred tier raw
