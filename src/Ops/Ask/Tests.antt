-- ===== src/Ops/Ask/Tests.antt =====
-- An ask whose answer lands in its third round, one that stalls, and the theorems about them.
use herdr_web_broker.Common.{
  ℕ, zero, suc, ◌+◌, ◌*◌, ◌-◌, ◌≤◌, ◌<◌, ◌≡◌, ◌≢◌, refl, String, true, false, Option, some, none,
  List, [], ◌∷◌, arith, to_ℕ, if◌then◌else◌,
}
use herdr_web_broker.Agents.Turn.{is_working, status, decide_turn}
use herdr_web_broker.Ops.{World, Result, ok, fail, is_ok}
use herdr_web_broker.Ops.Values.{Value, text}
use herdr_web_broker.Ops.Ask.{
  File, parsed, AskResult, Pacing, Round, unresponsive, out_of_fuel, ask_loop, await_answer,
  to_ask_result, landed, read_answer_file, round_step, follow,
}
use herdr_web_broker.Ops.Ask.Fuel.{ask_loop_terminates}
use herdr_web_broker.Ops.Ask.Awaited.{await_answer-landed}
use herdr_web_broker.Ops.Ask.Verdicts.{busy_in, landed_in, unresponsive-busy_in}
use herdr_web_broker.Ops.Ask.Lock.{lock_key, has_lock, ask, run, begins, ends, Happening}
use herdr_web_broker.Ops.Ask.Lock.Exclusive.{count, running-le, ask-releases}

abbrev parse : String → Option Value
parse s = some (text s)

abbrev pacing : Pacing
pacing = record { budget = 3000; grace_ms = 1000; start_grace_ms = 600 }

abbrev reply : File
reply = record { size = 3; head = "yes"; content = "yes" }

abbrev file_at : ℕ → Option File
file_at zero = none
file_at (suc zero) = none
file_at (suc (suc i)) = some reply

abbrev rounds : ℕ → Round
rounds i = record { at = 100 + i * 500; file = file_at i; turn = none; tier = some is_working }

-- An agent that never starts to work.
abbrev still : ℕ → Round
still i = record { at = 100 + i * 500; file = none; turn = none; tier = none }

ask_loop_terminates_example : ask_loop parse pacing 100 still (suc 3000) 0 false none ≢ out_of_fuel
ask_loop_terminates_example =
    ask_loop_terminates parse pacing 100 still 500 (omega arith) (omega arith) (λ i. omega arith)

busy_before : (j : ℕ) → j < 2 → busy_in parse pacing 100 rounds j ≡ true
unfolding decide_turn
busy_before j h = refl

nothing_before : (j : ℕ) → j < 2 → landed parse (file_at j) ≡ none
unfolding landed
nothing_before zero h = refl
nothing_before (suc zero) h = refl
nothing_before (suc (suc j)) h = absurd (omega (arith, h))

landed_then : landed parse (file_at 2) ≡ some (parsed (text "yes"))
unfolding landed read_answer_file
landed_then = refl

await_answer-landed_example :
    await_answer parse pacing 100 rounds none ≡ ok (to_ask_result (parsed (text "yes")))
await_answer-landed_example =
    await_answer-landed parse pacing 100 rounds (λ i. omega arith) 2 (parsed (text "yes"))
      landed_then (omega arith) busy_before nothing_before none (omega arith)

stalled : ask_loop parse pacing 100 still (suc 3000) 0 false none ≡ unresponsive 2 status
unfolding ask_loop round_step landed follow decide_turn
stalled = refl

unresponsive-busy_in_example :
    (600 < (still 2).at - 100)
    × (busy_in parse pacing 100 still 1 ≡ false)
    × (landed_in parse pacing 100 still 1 ≡ none)
unresponsive-busy_in_example =
    unresponsive-busy_in parse pacing 100 still (suc 3000) 2 1 status stalled (omega arith)

abbrev history : List Happening
history = begins "default:w1:p1" ∷ begins "default:w1:p1" ∷ ends "default:w1:p1" ∷ []

running-le_example :
    let f = run (record { locks = []; running = [] }) history in
    (count "default:w1:p1" f.running ≤ 1)
    × (count "default:w1:p1" f.running ≡ to_ℕ (has_lock "default:w1:p1" f.locks))
running-le_example = running-le "default:w1:p1" history

abbrev idle_world : World
idle_world = record { index = []; agents = []; resumable = []; ask_locks = [] }

abbrev failing_inner : World → World × Result AskResult
failing_inner w = (w, fail "upstream_timeout" "agent produced no answer")

ask-releases_example :
    let key = lock_key "default" "w1:p1" in
    let done = ask "default" "w1:p1" failing_inner idle_world in
    (has_lock key done.world.ask_locks ≡ has_lock key idle_world.ask_locks)
    × (done.world ≡ (if has_lock key idle_world.ask_locks then idle_world else done.world))
    × (done.completed ≡ is_ok done.result)
ask-releases_example = ask-releases "default" "w1:p1" failing_inner idle_world
