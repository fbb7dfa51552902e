-- ===== src/Ops/Polls/Finished.antt =====
-- `execCommand` of src/workspace-ops.ts: which exit code it gives.
use herdr_web_broker.Common.{
  ℕ, zero, suc, ◌+◌, ◌≤◌, ◌<◌, ◌≡◌, refl, true, Option, some, none, arith, subst, ltb, lt→ltb,
  is_some, if◌then◌else◌, Bool-cases, Option-cases, inl, inr,
}
use herdr_web_broker.Ops.Polls.Rounds.{clock-add}
use herdr_web_broker.Ops.Polls.{
  Exec, finished, timed_out, out_of_fuel, last_code, exec_loop, exec_command,
}

-- The exit code that the caller gets, if any.
abbrev pub code_of : Exec → Option ℕ
code_of (finished code emitted) = some code
code_of timed_out = none
code_of out_of_fuel = none

module _ (codes : ℕ → Option ℕ) (last : Option ℕ) (clock : ℕ → ℕ)
    (later : (i : ℕ) → clock i + 1 ≤ clock (i + 1)) where
  module _ (deadline n : ℕ) (early : (j : ℕ) → j < n → clock j < deadline)
      (nothing : (j : ℕ) → j < n → codes j ≡ none) where
    -- What the round `n` decides, if it does not go on.
    abbrev Decides : Type 0
    Decides = (if ltb (clock n) deadline then is_some (codes n) else true) ≡ true

    last_round :
        (fuel : ℕ)
        → Decides
        → code_of (exec_loop codes last clock deadline (suc fuel) n)
          ≡ (if ltb (clock n) deadline then codes n else last)
    unfolding exec_loop last_code
    last_round fuel decides = elim (Bool-cases (ltb (clock n) deadline)) [
      | inl within ↦ elim (Option-cases (codes n)) [
        | inl missing ↦ absurd (cc (rw (within, missing) at decides))
        | inr (code, landed) ↦ rw (within, landed) refl
      ]
      | inr over ↦ rw over (given last)
    ]
      where
        given : (o : Option ℕ) → code_of (last_code o) ≡ o
        given none = refl
        given (some code) = refl

    reaches :
        (k i fuel : ℕ)
        → i + k ≡ n
        → k < fuel
        → Decides
        → code_of (exec_loop codes last clock deadline fuel i)
          ≡ (if ltb (clock n) deadline then codes n else last)
    unfolding exec_loop
    reaches k i zero e enough decides = absurd (omega (arith, enough))
    reaches zero i (suc fuel) e enough decides =
        let here : n ≡ i = omega (arith, e) in
        subst
          (λ m.
            code_of (exec_loop codes last clock deadline (suc fuel) m)
            ≡ (if ltb (clock n) deadline then codes n else last))
          here (last_round fuel decides)
    reaches (suc k) i (suc fuel) e enough decides =
        let before : i < n = omega (arith, e) in
        rw (lt→ltb _ _ (early i before), nothing i before)
          (reaches k (i + 1) fuel (omega (arith, e)) (omega (arith, enough)) decides)

  -- Let `n` be the first round that finds an exit code or is not within the budget any more. Then the
  -- command has the code of that round, or, past the budget, the one that the last look finds; without
  -- one it has timed out. The time between two rounds is at least one ms.
  pub exec_command-code_of :
      (budget started n : ℕ)
      → started ≤ clock 0
      → ((j : ℕ) → j < n → clock j < started + budget)
      → ((j : ℕ) → j < n → codes j ≡ none)
      → (if ltb (clock n) (started + budget) then is_some (codes n) else true) ≡ true
      → code_of (exec_command codes last clock budget started)
        ≡ (if ltb (clock n) (started + budget) then codes n else last)
  unfolding exec_command
  exec_command-code_of budget started n begun early nothing decides =
      reaches (started + budget) n early nothing n 0 (suc budget) (zero_add n) (enough n early)
        decides
    where
      zero_add : (n : ℕ) → 0 + n ≡ n
      zero_add n = omega arith

      enough : (n : ℕ) → ((j : ℕ) → j < n → clock j < started + budget) → n < suc budget
      enough zero early = omega arith
      enough (suc m) early = omega (
        arith,
        subst (λ k. clock 0 + m ≤ clock k) (zero_add m) (clock-add clock later m 0),
        early m (omega arith),
        begun,
      )
