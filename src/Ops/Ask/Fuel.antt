-- ===== src/Ops/Ask/Fuel.antt =====
-- `ask` of src/workspace-ops.ts: its loop ends.
use herdr_web_broker.Common.{
  ℕ, zero, suc, ◌+◌, ◌*◌, ◌≤◌, ◌<◌, ◌≡◌, ◌≢◌, String, Bool, false, Option, none, arith, ltb,
  Bool-cases, inl, inr,
}
use herdr_web_broker.Ops.Values.{Value}
use herdr_web_broker.Ops.Ask.{
  Pacing, Round, Verdict, finishes, stalls, breaks, waits, Ended, out_of_fuel, follow, ask_loop,
}

pub le_mul : (n p : ℕ) → 0 < p → n ≤ n * p
le_mul zero p h = omega arith
le_mul (suc n) p h = grind (arith, le_mul n p h)

module _ (parse : String → Option Value) (pacing : Pacing) (started : ℕ) (rounds : ℕ → Round) where
  follow-ends :
      (v : Verdict) (i : ℕ) (again : Bool → Option ℕ → Ended)
      → ((saw : Bool) (idle : Option ℕ) → again saw idle ≢ out_of_fuel)
      → follow v i again ≢ out_of_fuel
  unfolding follow
  follow-ends (finishes res) i again h = λ e. cc
  follow-ends (stalls evidence) i again h = λ e. cc
  follow-ends breaks i again h = λ e. cc
  follow-ends (waits saw idle) i again h = h saw idle

  -- With pauses of at least `poll_ms` between the rounds, the fuel for the time that is left is enough.
  ask_loop-ends :
      (poll_ms : ℕ)
      → ((i : ℕ) → (rounds i).at + poll_ms ≤ (rounds (i + 1)).at)
      → (left i : ℕ) (saw : Bool) (idle : Option ℕ)
      → started + pacing.budget ≤ (rounds i).at + left * poll_ms
      → ask_loop parse pacing started rounds (suc left) i saw idle ≢ out_of_fuel
  unfolding ask_loop
  ask_loop-ends poll_ms later zero i saw idle enough =
      let late : ltb (rounds i).at (started + pacing.budget) ≡ false = ground (arith, enough) in
      rw late (λ e. cc)
  ask_loop-ends poll_ms later (suc left) i saw idle enough =
      elim (Bool-cases (ltb (rounds i).at (started + pacing.budget))) [
        | inl early ↦ rw early (
            follow-ends _ i _ (λ s d.
              ask_loop-ends poll_ms later left (i + 1) s d (grind (arith, later i, enough))))
        | inr late ↦ rw late (λ e. cc)
      ]

  -- Where `setTimeout` pauses for at least `poll_ms`, which is not 0, the loop of an ask always ends
  -- within one round for every millisecond of its budget, and one more.
  pub ask_loop_terminates :
      (poll_ms : ℕ)
      → 0 < poll_ms
      → started ≤ (rounds 0).at
      → ((i : ℕ) → (rounds i).at + poll_ms ≤ (rounds (i + 1)).at)
      → ask_loop parse pacing started rounds (suc pacing.budget) 0 false none ≢ out_of_fuel
  ask_loop_terminates poll_ms pauses begun later =
      ask_loop-ends poll_ms later pacing.budget 0 false none
        (omega (arith, begun, le_mul pacing.budget poll_ms pauses))
