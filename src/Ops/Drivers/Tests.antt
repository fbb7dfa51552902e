-- ===== src/Ops/Drivers/Tests.antt =====
-- A slash command with arguments, and the theorems about it.
use herdr_web_broker.Common.{ℕ, String, true, ◌≡◌, some, List, [], ◌∷◌, if◌then◌else◌}
use herdr_web_broker.Ops.{Result, ok, fail}
use herdr_web_broker.Ops.Panes.{Entry}
use herdr_web_broker.Ops.Values.{text, Fields, field, end}
use herdr_web_broker.Ops.Drivers.{has_control, slash}
use herdr_web_broker.Ops.Drivers.OneLine.{slash-IsOneLine}

abbrev occupant : Entry
occupant = record {
  pane_id = some "w1:p1";
  name = some "lead";
  agent = some "claude";
  agent_status = some "idle";
  interactive_ready = some true;
}

abbrev polls : ℕ → Result (List Entry)
polls attempt = ok (occupant ∷ [])

abbrev sends : String → Result (Unit {0})
sends typed = ok tt

abbrev refuses : String → Result (Unit {0})
refuses typed = fail "bad_request" "more than one line"

abbrev fields : Fields
fields = field "command" (text "model") (field "args" (text " gpt-5 ") end)

slash-IsOneLine_example :
    slash polls sends "w1:p1" fields
    ≡ slash polls (λ t. if has_control t then refuses t else sends t) "w1:p1" fields
slash-IsOneLine_example = slash-IsOneLine polls sends refuses "w1:p1" fields
