-- ===== src/Ops/Polls/Answers.antt =====
-- src/workspace-ops.ts: which round a long poll answers in, and what.
use herdr_web_broker.Common.{
  ℕ, zero, suc, ◌+◌, ◌≤◌, ◌<◌, ◌≡◌, refl, String, true, false, ◌||◌, Option, leb, arith, subst, ◌∙◌,
  if◌then◌else◌, Bool-cases, inl, inr,
}
use herdr_web_broker.Ops.{Result, ok, throws, ◌>>=◌}
use herdr_web_broker.Ops.Polls.{Reply, fresh, unchanged, is_changed, poll_round, poll_loop}
use herdr_web_broker.Ops.Polls.Fresh.{is_same}
use herdr_web_broker.Ops.Polls.Rounds.{clock-add}

module _ {A : Type 0} (reads : ℕ → Result (A × String)) (clock : ℕ → ℕ)
    (known : Option String) where
  -- The answer of a round that ends a poll.
  abbrev pub answer_of : ℕ → A → String → Reply A
  answer_of n a version =
      if is_changed known version then fresh n a version else unchanged n version

  module _ (deadline n : ℕ) (a : A) (version : String) (read : reads n ≡ ok (a, version))
      (decides : is_changed known version || leb deadline (clock n) ≡ true)
      (same : (j : ℕ) → j < n → is_same reads clock known deadline (reads j) ≡ true)
      (early : (j : ℕ) → j < n → clock j < deadline) where
    last_round :
        (fuel : ℕ) → poll_loop reads clock known deadline (suc fuel) n ≡ ok (answer_of n a version)
    unfolding poll_loop poll_round
    last_round fuel = elim (Bool-cases (is_changed known version)) [
      | inl changed ↦ rw (read, changed) refl
      | inr kept ↦
          let late : leb deadline (clock n) ≡ true = rw kept at decides in
          rw (read, kept, late) refl
    ]

    goes_on :
        (r : Result (A × String)) (i : ℕ) (later : Result (Reply A))
        → is_same reads clock known deadline r ≡ true
        → clock i < deadline
        → (r >>= λ seen. poll_round known (leb deadline (clock i)) i seen later) ≡ later
    unfolding poll_round
    goes_on (ok (b, v)) i later h before =
        let kept : is_changed known v ≡ false = ground (arith, h) in
        let soon : leb deadline (clock i) ≡ false = ground (arith, before) in rw (kept, soon) refl
    goes_on (throws e) i later h before = absurd (cc h)

    reaches :
        (k i fuel : ℕ)
        → i + k ≡ n
        → k < fuel
        → poll_loop reads clock known deadline fuel i ≡ ok (answer_of n a version)
    unfolding poll_loop
    reaches k i zero e enough = absurd (omega (arith, enough))
    reaches zero i (suc fuel) e enough =
        let here : n ≡ i = omega (arith, e) in
        subst (λ m. poll_loop reads clock known deadline (suc fuel) m ≡ ok (answer_of n a version))
          here (last_round fuel)
    reaches (suc k) i (suc fuel) e enough =
        let before : i < n = omega (arith, e) in
        goes_on (reads i) i _ (same i before) (early i before)
        ∙ reaches k (i + 1) fuel (omega (arith, e)) (omega (arith, enough))

  -- Let `n` be the first round that reads another version than the caller knows, or that is not before
  -- the deadline. Then the poll ends in that round: with what was read, if its version is another one,
  -- however late the round is, and else by saying that nothing has changed. The time between two rounds
  -- is at least one ms, and no read fails.
  pub poll_loop-answer_of :
      (started wait n : ℕ) (a : A) (version : String)
      → ((i : ℕ) → clock i + 1 ≤ clock (i + 1))
      → started ≤ clock 0
      → reads n ≡ ok (a, version)
      → is_changed known version || leb (started + wait) (clock n) ≡ true
      → ((j : ℕ) → j < n → is_same reads clock known (started + wait) (reads j) ≡ true)
      → ((j : ℕ) → j < n → clock j < started + wait)
      → poll_loop reads clock known (started + wait) (suc wait) 0 ≡ ok (answer_of n a version)
  poll_loop-answer_of started wait n a version later begun read decides same early =
      reaches (started + wait) n a version read decides same early n 0 (suc wait) (zero_add n)
        (enough n early)
    where
      zero_add : (n : ℕ) → 0 + n ≡ n
      zero_add n = omega arith

      enough : (n : ℕ) → ((j : ℕ) → j < n → clock j < started + wait) → n < suc wait
      enough zero early = omega arith
      enough (suc m) early = omega (
        arith,
        subst (λ k. clock 0 + m ≤ clock k) (zero_add m) (clock-add clock later m 0),
        early m (omega arith),
        begun,
      )
