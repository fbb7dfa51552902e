-- ===== src/Ops/Polls/Rounds.antt =====
-- The times of the rounds of a loop of src/workspace-ops.ts that waits.
use herdr_web_broker.Common.{ℕ, zero, suc, ◌+◌, ◌≤◌, ◌≡◌, arith, subst}

module _ (clock : ℕ → ℕ) (later : (i : ℕ) → clock i + 1 ≤ clock (i + 1)) where
  pub clock-add : (k i : ℕ) → clock i + k ≤ clock (i + k)
  clock-add zero i = subst (λ m. clock i + 0 ≤ clock m) (add_none i) (omega arith)
    where
      add_none : (i : ℕ) → i ≡ i + 0
      add_none i = omega arith
  clock-add (suc k) i =
      subst (λ m. clock i + suc k ≤ clock m) (add_more i)
        (omega (arith, later i, clock-add k (i + 1)))
    where
      add_more : (i : ℕ) → i + 1 + k ≡ i + suc k
      add_more i = omega arith
