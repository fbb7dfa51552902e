-- ===== src/State/Tests.antt =====
-- Runs of the indexes, and the theorems about them at concrete inputs.
use herdr_web_broker.Common.{◌≡◌, some, none, List, [], ◌∷◌}
use herdr_web_broker.State.{AgentMeta, Call, sets, removes, removes_workspace, get, run}
use herdr_web_broker.State.Rows.{run_row, get-run}

abbrev claude : AgentMeta
claude = record { session_id = some "c1"; kind = "claude"; started_at = 5 }

abbrev codex : AgentMeta
codex = record { session_id = none; kind = "codex"; started_at = 6 }

abbrev history : List (Call AgentMeta)
history =
    sets "default" "w1:p1" claude
    ∷ sets "default" "w1:p2" codex
    ∷ sets "default" "w2:p1" codex
    ∷ removes_workspace "default" "w1"
    ∷ removes "default" "w2:p9"
    ∷ []

get-run_example :
    get "default" "w2:p1" (run [] history)
    ≡ run_row "default" "w2:p1" (get "default" "w2:p1" []) history
get-run_example = get-run "default" "w2:p1" [] history
