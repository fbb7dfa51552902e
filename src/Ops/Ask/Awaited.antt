-- ===== src/Ops/Ask/Awaited.antt =====
-- `ask` of src/workspace-ops.ts: an answer that lands in time is returned.
use herdr_web_broker.Common.{
  ℕ, zero, suc, ◌+◌, ◌≤◌, ◌<◌, ◌≡◌, refl, String, Bool, true, false, Option, some, none, arith,
  subst, lt→ltb,
}
use herdr_web_broker.Ops.{ok}
use herdr_web_broker.Ops.Values.{Value}
use herdr_web_broker.Ops.Ask.{
  AnswerRead, File, Pacing, Round, answered, landed, is_busy, decision_of, waits, round_step,
  follow, ask_loop, conclude, await_answer, to_ask_result,
}
use herdr_web_broker.Ops.Ask.Verdicts.{busy_in, landed_in}

module _ (parse : String → Option Value) (pacing : Pacing) (started : ℕ) (rounds : ℕ → Round)
    (later : (i : ℕ) → (rounds i).at + 1 ≤ (rounds (i + 1)).at) where
  at-add : (k i : ℕ) → (rounds i).at + k ≤ (rounds (i + k)).at
  at-add zero i = subst (λ m. (rounds i).at + 0 ≤ (rounds m).at) (add_none i) (omega arith)
    where
      add_none : (i : ℕ) → i ≡ i + 0
      add_none i = omega arith
  at-add (suc k) i =
      subst (λ m. (rounds i).at + suc k ≤ (rounds m).at) (add_more i)
        (omega (arith, later i, at-add k (i + 1)))
    where
      add_more : (i : ℕ) → i + 1 + k ≡ i + suc k
      add_more i = omega arith

  busy-waits :
      (i : ℕ) (saw : Bool) (idle : Option ℕ)
      → busy_in parse pacing started rounds i ≡ true
      → landed_in parse pacing started rounds i ≡ none
      → round_step parse pacing started saw idle (rounds i) ≡ waits true none
  unfolding round_step
  busy-waits i saw idle busy nothing = rw (nothing, busy) refl

  module _ (n : ℕ) (res : AnswerRead) (landed_then : landed parse (rounds n).file ≡ some res)
      (early : (rounds n).at < started + pacing.budget)
      (busy : (j : ℕ) → j < n → is_busy (decision_of started (rounds j)).status ≡ true)
      (nothing : (j : ℕ) → j < n → landed parse (rounds j).file ≡ none) where
    last_round :
        (fuel : ℕ) (saw : Bool) (idle : Option ℕ)
        → ask_loop parse pacing started rounds (suc fuel) n saw idle ≡ answered n res
    unfolding ask_loop follow round_step
    last_round fuel saw idle = rw (lt→ltb _ _ early, landed_then) refl

    early_before : (i k : ℕ) → i + suc k ≡ n → (rounds i).at < started + pacing.budget
    early_before i k e =
        let sooner = subst (λ m. (rounds i).at + suc k ≤ (rounds m).at) e (at-add (suc k) i) in
        omega (arith, sooner, early)

    reaches :
        (k i fuel : ℕ) (saw : Bool) (idle : Option ℕ)
        → i + k ≡ n
        → k < fuel
        → ask_loop parse pacing started rounds fuel i saw idle ≡ answered n res
    unfolding ask_loop follow
    reaches k i zero saw idle e enough = absurd (omega (arith, enough))
    reaches zero i (suc fuel) saw idle e enough =
        let here : n ≡ i = omega (arith, e) in
        subst (λ m. ask_loop parse pacing started rounds (suc fuel) m saw idle ≡ answered n res)
          here (last_round fuel saw idle)
    reaches (suc k) i (suc fuel) saw idle e enough =
        let before : i < n = omega (arith, e) in
        rw
          (
            lt→ltb _ _ (early_before i k e),
            busy-waits i saw idle (busy i before) (nothing i before),
          )
          (reaches k (i + 1) fuel true none (omega (arith, e)) (omega (arith, enough)))

    -- While an agent works or is blocked, and an answer lands in a round within the budget, with none
    -- landed before, the ask returns that answer: whatever the graces are, and in how many rounds.
    pub await_answer-landed :
        (last : Option File)
        → started ≤ (rounds 0).at
        → await_answer parse pacing started rounds last ≡ ok (to_ask_result res)
    unfolding await_answer conclude
    await_answer-landed last begun =
        let enough : n < suc pacing.budget = omega (
          arith,
          subst (λ m. (rounds 0).at + n ≤ (rounds m).at) (zero_add n) (at-add n 0),
          early,
          begun,
        ) in
        rw (reaches n 0 (suc pacing.budget) false none (omega arith) enough) refl
      where
        zero_add : (n : ℕ) → 0 + n ≡ n
        zero_add n = omega arith
