-- ===== src/Ops/Ask.antt =====
-- `ask` of src/workspace-ops.ts: the answer file, and the loop that waits for it. `parse` stands for
-- `JSON.parse`. A file is its size in bytes, its text, and the text of its first `DIFF_CAP_BYTES` bytes.
-- A round of the loop runs without waiting: it has one time, in ms, and sees the file and the status once.
pub mod Inner
pub mod Lock
pub mod Fuel
pub mod Verdicts
pub mod Awaited
mod Tests
use herdr_web_broker.Common.{
  ℕ, zero, suc, ◌+◌, ◌-◌, String, Bool, true, false, Option, some, none, ltb, or_else, is_some,
  if◌then◌else◌,
}
use herdr_web_broker.Agents.Turn.{
  TranscriptState, TurnStatus, is_working, is_blocked, is_idle, Evidence, Decision, decide_turn,
}
use herdr_web_broker.Ops.{Result, ok, fail}
use herdr_web_broker.Ops.Values.{Value, null, object, Fields, member}

abbrev pub diff_cap_bytes : ℕ
diff_cap_bytes = 786432

pub record File : Type 0 where
  pub size : ℕ
  pub head : String
  pub content : String

pub data AnswerRead : Type 0 where
  parsed : (answer : Value) → AnswerRead
  oversize : (raw : String) → (full_bytes : ℕ) → AnswerRead
  parse_error : (raw : String) → AnswerRead

abbrev parsed_or : Option Value → String → AnswerRead
parsed_or none raw = parse_error raw
parsed_or (some v) raw = parsed v

-- `readAnswerFile(file)`
unfoldable pub read_answer_file : (String → Option Value) → File → AnswerRead
read_answer_file parse f =
    if ltb diff_cap_bytes f.size
    then oversize f.head f.size
    else parsed_or (parse f.content) f.content

pub data AskResult : Type 0 where
  answer : Value → AskResult
  truncated : (raw : String) → (full_bytes : ℕ) → AskResult
  unparsed : (raw : String) → AskResult

-- The envelope `{"answer": ...}` is taken off.
unfoldable pub unwrap : Value → Value
unwrap (object fields) = or_else (member "answer" fields) (object fields)
unwrap v = v

-- `toAskResult(res)`
unfoldable pub to_ask_result : AnswerRead → AskResult
unfolding unwrap
to_ask_result (parsed v) = answer (unwrap v)
to_ask_result (oversize raw full_bytes) = truncated raw full_bytes
to_ask_result (parse_error raw) = unparsed raw

pub record Pacing : Type 0 where
  pub budget : ℕ
  pub grace_ms : ℕ
  pub start_grace_ms : ℕ

-- What a round of the loop finds.
pub record Round : Type 0 where
  pub at : ℕ
  pub file : Option File
  pub turn : Option TranscriptState
  pub tier : Option TurnStatus

pub data Verdict : Type 0 where
  finishes : AnswerRead → Verdict
  stalls : Evidence → Verdict
  breaks : Verdict
  waits : (saw_working : Bool) → (idle_since : Option ℕ) → Verdict

abbrev whole : AnswerRead → Option AnswerRead
whole (parsed v) = some (parsed v)
whole (oversize raw n) = some (oversize raw n)
whole (parse_error raw) = none

-- A file that does not parse may be half written, and is not an answer yet.
unfoldable pub landed : (String → Option Value) → Option File → Option AnswerRead
landed parse none = none
landed parse (some f) = whole (read_answer_file parse f)

abbrev pub is_busy : TurnStatus → Bool
is_busy is_working = true
is_busy is_blocked = true
is_busy is_idle = false

abbrev pub decision_of : ℕ → Round → Decision
decision_of started r = decide_turn r.turn (or_else r.tier is_idle) none started

abbrev pub idle_verdict : Pacing → ℕ → Evidence → Bool → Option ℕ → ℕ → Verdict
idle_verdict pacing started evidence true idle_since now =
    if ltb pacing.grace_ms (now - or_else idle_since now)
    then breaks
    else waits true (some (or_else idle_since now))
idle_verdict pacing started evidence false idle_since now =
    if ltb pacing.start_grace_ms (now - started) then stalls evidence else waits false idle_since

abbrev pub status_verdict : Pacing → ℕ → Decision → Bool → Option ℕ → ℕ → Verdict
status_verdict pacing started decision saw_working idle_since now =
    if is_busy decision.status
    then waits true none
    else idle_verdict pacing started decision.evidence saw_working idle_since now

abbrev pub round_verdict : Option AnswerRead → Verdict → Verdict
round_verdict none v = v
round_verdict (some res) v = finishes res

-- The body of the loop.
unfoldable pub round_step : (String → Option Value) → Pacing → ℕ → Bool → Option ℕ → Round → Verdict
round_step parse pacing started saw_working idle_since r =
    round_verdict (landed parse r.file)
      (status_verdict pacing started (decision_of started r) saw_working idle_since r.at)

-- How the loop is left, and in which round.
pub data Ended : Type 0 where
  answered : (round : ℕ) → AnswerRead → Ended
  unresponsive : (round : ℕ) → Evidence → Ended
  gave_up : (round : ℕ) → Ended
  out_of_fuel : Ended

unfoldable pub follow : Verdict → ℕ → (Bool → Option ℕ → Ended) → Ended
follow (finishes res) i again = answered i res
follow (stalls evidence) i again = unresponsive i evidence
follow breaks i again = gave_up i
follow (waits saw_working idle_since) i again = again saw_working idle_since

unfoldable pub ask_loop :
    (String → Option Value) → Pacing → ℕ → (ℕ → Round) → ℕ → ℕ → Bool → Option ℕ → Ended
unfolding follow
ask_loop parse pacing started rounds zero i saw_working idle_since = out_of_fuel
ask_loop parse pacing started rounds (suc fuel) i saw_working idle_since =
    if ltb (rounds i).at (started + pacing.budget)
    then follow (round_step parse pacing started saw_working idle_since (rounds i)) i
        (λ saw idle. ask_loop parse pacing started rounds fuel (i + 1) saw idle)
    else gave_up i

-- The last look at the file, once the loop was left without an answer.
unfoldable pub last_look : (String → Option Value) → Option File → Result AskResult
last_look parse none = fail "upstream_timeout" "agent produced no answer"
last_look parse (some f) = ok (to_ask_result (read_answer_file parse f))

unfoldable pub conclude : (String → Option Value) → Option File → Ended → Result AskResult
unfolding last_look
conclude parse last (answered i res) = ok (to_ask_result res)
conclude parse last (unresponsive i evidence) = fail "agent_unresponsive" "no answer file"
conclude parse last (gave_up i) = last_look parse last
conclude parse last out_of_fuel = last_look parse last

-- `askInner` from the prompt on, with fuel for every round that the budget has time for.
pub await_answer :
    (String → Option Value) → Pacing → ℕ → (ℕ → Round) → Option File → Result AskResult
unfolding conclude ask_loop
await_answer parse pacing started rounds last =
    conclude parse last (ask_loop parse pacing started rounds (suc pacing.budget) 0 false none)
