-- ===== src/Ops/Polls/Tests.antt =====
-- A screen that changes in its third round, a command that finishes in its second, and the theorems on them.
use herdr_web_broker.Common.{
  ℕ, zero, suc, ◌+◌, ◌*◌, ◌≤◌, ◌<◌, ◌≡◌, ◌≢◌, refl, String, true, false, Option, some, none, arith,
}
use herdr_web_broker.Ops.{Result, ok}
use herdr_web_broker.Ops.Polls.{fresh, out_of_fuel, poll_loop, finished, exec_loop, exec_command}
use herdr_web_broker.Ops.Polls.Fresh.{is_same, poll_loop_terminates}
use herdr_web_broker.Ops.Polls.Answers.{poll_loop-answer_of}
use herdr_web_broker.Ops.Polls.Finished.{code_of, exec_command-code_of}

abbrev reads : ℕ → Result (ℕ × String)
reads zero = ok (0, "v1")
reads (suc zero) = ok (1, "v1")
reads (suc (suc i)) = ok (2, "v2")

abbrev clock : ℕ → ℕ
clock i = 10 + i * 500

clock_runs : (i : ℕ) → clock i + 1 ≤ clock (i + 1)
clock_runs i = omega arith

same_before : (j : ℕ) → j < 2 → is_same reads clock (some "v1") (10 + 900) (reads j) ≡ true
same_before zero h = refl
same_before (suc zero) h = refl
same_before (suc (suc j)) h = absurd (omega (arith, h))

early_before : (j : ℕ) → j < 2 → clock j < 10 + 900
early_before j h = omega (arith, h)

-- The third round, in which the version is another one, is past the deadline.
poll_loop-answer_of_example :
    poll_loop reads clock (some "v1") (10 + 900) (suc 900) 0 ≡ ok (fresh 2 2 "v2")
poll_loop-answer_of_example =
    poll_loop-answer_of reads clock (some "v1") 10 900 2 2 "v2" clock_runs (omega arith) refl refl
      same_before early_before

clock_pauses : (i : ℕ) → clock i + 500 ≤ clock (i + 1)
clock_pauses i = omega arith

poll_loop_terminates_example :
    poll_loop reads clock (some "v1") (10 + 2000) (suc 2000) 0 ≢ ok out_of_fuel
poll_loop_terminates_example =
    poll_loop_terminates reads clock (some "v1") 10 2000 500 (omega arith) (omega arith)
      clock_pauses

abbrev codes : ℕ → Option ℕ
codes zero = none
codes (suc i) = some 3

early : (j : ℕ) → j < 1 → clock j < 10 + 1000
early j h = omega (arith, h)

none_before : (j : ℕ) → j < 1 → codes j ≡ none
none_before zero h = refl
none_before (suc j) h = absurd (omega (arith, h))

exec_command-code_of_example : code_of (exec_command codes none clock 1000 10) ≡ some 3
exec_command-code_of_example =
    exec_command-code_of codes none clock clock_runs 1000 10 1 (omega arith) early none_before refl

-- `broker.exec.finished` is not emitted for a command that ends within its budget.
silent : exec_command codes none clock 1000 10 ≡ finished 3 false
unfolding exec_command exec_loop
silent = refl
