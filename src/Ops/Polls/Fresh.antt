-- ===== src/Ops/Polls/Fresh.antt =====
-- src/workspace-ops.ts: a long poll ends.
use herdr_web_broker.Common.{
  ℕ, zero, suc, ◌+◌, ◌*◌, ◌≤◌, ◌<◌, ◌≡◌, ◌≢◌, refl, String, Bool, false, not, Option, leb, arith,
  Bool-cases, inl, inr, ◌⊎◌,
}
use herdr_web_broker.Ops.{Thrown, Result, ok, throws}
use herdr_web_broker.Ops.Ask.Fuel.{le_mul}
use herdr_web_broker.Ops.Polls.{Reply, out_of_fuel, is_changed, poll_round, poll_loop}

Result-cases {ℓ} :
    {A : Type ℓ} (r : Result A) → ((a : A) × (r ≡ ok a)) ⊎ ((e : Thrown) × (r ≡ throws e))
Result-cases (ok a) = inl (a, refl)
Result-cases (throws e) = inr (e, refl)

module _ {A : Type 0} (reads : ℕ → Result (A × String)) (clock : ℕ → ℕ) (known : Option String)
    (deadline : ℕ) where
  -- Whether a round reads the version that the caller knows.
  abbrev pub is_same : Result (A × String) → Bool
  is_same (ok (a, version)) = not (is_changed known version)
  is_same (throws e) = false

  poll_round-ends :
      (i : ℕ) (seen : A × String) (is_over : Bool) (later : Result (Reply A))
      → (is_over ≡ false → later ≢ ok out_of_fuel)
      → poll_round known is_over i seen later ≢ ok out_of_fuel
  unfolding poll_round
  poll_round-ends i (a, version) is_over later h = elim (Bool-cases (is_changed known version)) [
    | inl changed ↦ rw changed (λ e. cc)
    | inr same ↦ elim (Bool-cases is_over) [
      | inl late ↦ rw (same, late) (λ e. cc)
      | inr early ↦ λ e. h early (rw (same, early) at e)
    ]
  ]

  -- With pauses of at least `poll_ms` between the rounds, the fuel for the time that is left is enough.
  poll_loop-ends :
      (poll_ms : ℕ)
      → ((i : ℕ) → clock i + poll_ms ≤ clock (i + 1))
      → (left i : ℕ) → deadline ≤ clock i + left * poll_ms
      → poll_loop reads clock known deadline (suc left) i ≢ ok out_of_fuel
  unfolding poll_loop
  poll_loop-ends poll_ms later zero i enough = elim (Result-cases (reads i)) [
    | inl (seen, read) ↦ rw read (
        poll_round-ends i seen (leb deadline (clock i)) _
          (λ early. absurd (ground (arith, enough, early))))
    | inr (e, failed) ↦ rw failed (λ e. cc)
  ]
  poll_loop-ends poll_ms later (suc left) i enough = elim (Result-cases (reads i)) [
    | inl (seen, read) ↦ rw read (
        poll_round-ends i seen (leb deadline (clock i)) _
          (λ early. poll_loop-ends poll_ms later left (i + 1) (grind (arith, later i, enough))))
    | inr (e, failed) ↦ rw failed (λ e. cc)
  ]

-- Where `setTimeout` pauses for at least `poll_ms`, which is not 0, a poll always ends within one round for
-- every millisecond of the wait, and one more.
pub poll_loop_terminates :
    {A : Type 0} (reads : ℕ → Result (A × String)) (clock : ℕ → ℕ) (known : Option String)
    (started : ℕ) (wait poll_ms : ℕ)
    → 0 < poll_ms
    → started ≤ clock 0
    → ((i : ℕ) → clock i + poll_ms ≤ clock (i + 1))
    → poll_loop reads clock known (started + wait) (suc wait) 0 ≢ ok out_of_fuel
poll_loop_terminates reads clock known started wait poll_ms pauses begun later =
    poll_loop-ends reads clock known (started + wait) poll_ms later wait 0
      (omega (arith, begun, le_mul wait poll_ms pauses))
