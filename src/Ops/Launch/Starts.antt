-- ===== src/Ops/Launch/Starts.antt =====
-- `spawn` of src/workspace-ops.ts: the loop around `agent.start` ends, and so does the settle window.
use herdr_web_broker.Common.{
  ℕ, zero, suc, ◌+◌, ◌*◌, ◌≤◌, ◌<◌, ◌≡◌, ◌≢◌, ◌-◌, ◌∙◌, refl, String, Bool, true, false, Option,
  List, [], str_eq, str_eq-ne, arith, inl, inr, length, to_ℕ, or_else, sym, ap, ◌⊎◌,
}
use Prim.Native.String.{◌++◌ as text_append, count}
use text.Mathlib.TextLemmas.{length-append}
use herdr_web_broker.Access.Errors.{BrokerError}
use herdr_web_broker.Ops.{Result, ok, throws, as_broker_error}
use herdr_web_broker.Ops.Panes.{Entry}
use herdr_web_broker.Ops.Launch.{
  Start, started, out_of_fuel, Naming, Retry, again, gives_up, retry, retried, start_loop,
  start_agent, without_colons, pane_name, gap_of, take_samples,
}

append-ne : (kind rest : String) → kind ≢ text_append kind (text_append "-" rest)
append-ne kind rest e =
    let counted : count kind ≡ count kind + (count "-" + count rest) =
      ap count e
      ∙ length-append kind (text_append "-" rest)
      ∙ ap (λ n. count kind + n) (length-append "-" rest) in
    let one : count "-" ≡ 1 = refl in absurd (omega (arith, counted, one))

-- The name of the pane is never the plain kind.
pane_name-ne : (kind pane : String) → str_eq (pane_name kind pane) kind ≡ false
unfolding pane_name
pane_name-ne kind pane = str_eq-ne _ kind (λ e. append-ne kind (without_colons pane) (sym e))

module _ (answers : ℕ → String → Result (Unit {0})) (busy_retries : ℕ) (naming : Naming)
    (differs : str_eq naming.fallback naming.kind ≡ false) where
  retried-ends :
      (r : Retry) (e : BrokerError) (start : String → Start)
      → ((name : String) → r ≡ again name → start name ≢ out_of_fuel)
      → retried r e start ≢ out_of_fuel
  unfolding retried
  retried-ends (again name) e start h = h name refl
  retried-ends gives_up e start h = λ d. cc

  retry-cases :
      (attempt : ℕ) (name : String) (e : BrokerError) (other : String)
      → retry busy_retries naming attempt name e ≡ again other
      → ((attempt < busy_retries) × (other ≡ name))
        ⊎ ((str_eq name naming.kind ≡ true) × (other ≡ naming.fallback))
  unfolding retry
  retry-cases attempt name e other h = ground (arith, h)

  -- The attempts that are left: those that may meet a busy pane, and one under another name.
  abbrev attempts_left : ℕ → String → ℕ
  attempts_left attempt name = busy_retries - attempt + to_ℕ (str_eq name naming.kind)

  fewer :
      (attempt fuel : ℕ) (name other : String)
      → ((attempt < busy_retries) × (other ≡ name))
        ⊎ ((str_eq name naming.kind ≡ true) × (other ≡ naming.fallback))
      → attempts_left attempt name < suc fuel
      → attempts_left (attempt + 1) other < fuel
  fewer attempt fuel name other (inl busy) enough = rw busy.1 (omega (arith, busy.0, enough))
  fewer attempt fuel name other (inr taken) enough =
      rw (taken.1, differs) (omega (arith, rw taken.0 at enough))

  start_loop-ends :
      (fuel attempt : ℕ) (name : String)
      → attempts_left attempt name < fuel
      → start_loop answers busy_retries naming fuel attempt name ≢ out_of_fuel
  unfolding start_loop
  start_loop-ends zero attempt name enough = absurd (omega (arith, enough))
  start_loop-ends (suc fuel) attempt name enough = at_answer (answers attempt name) (λ other e h.
      start_loop-ends fuel (attempt + 1) other
        (fewer attempt fuel name other (retry-cases attempt name e other h) enough))
    where
      at_answer :
          (answer : Result (Unit {0}))
          → ((other : String) (e : BrokerError)
              → retry busy_retries naming attempt name e ≡ again other
              → start_loop answers busy_retries naming fuel (attempt + 1) other ≢ out_of_fuel)
          → (elim answer [
            | ok _ ↦ started name
            | throws t ↦
                retried
                  (retry busy_retries naming attempt name (as_broker_error t))
                  (as_broker_error t)
                  (λ other. start_loop answers busy_retries naming fuel (attempt + 1) other)
          ])
            ≢ out_of_fuel
      at_answer (ok _) more = λ d. cc
      at_answer (throws t) more =
          retried-ends _ (as_broker_error t) _ (λ other h. more other (as_broker_error t) h)

-- Whatever herdr answers, the loop around `agent.start` ends after at most two attempts more than the
-- retries of a busy pane.
pub start_agent_terminates :
    (answers : ℕ → String → Result (Unit {0})) (busy_retries : ℕ) (explicit : Bool)
    (kind pane : String) (name : Option String)
    → start_agent answers busy_retries
        (record { explicit = explicit; kind = kind; fallback = pane_name kind pane })
        name
      ≢ out_of_fuel
unfolding start_agent
start_agent_terminates answers busy_retries explicit kind pane name =
    start_loop-ends answers busy_retries _ (pane_name-ne kind pane) (suc (suc busy_retries)) 0 _
      (small (str_eq (or_else name kind) kind))
  where
    small : (b : Bool) → busy_retries - 0 + to_ℕ b < suc (suc busy_retries)
    small true = omega arith
    small false = omega arith

gap_of-le : (settle_ms : ℕ) → settle_ms ≤ 4 * gap_of settle_ms
gap_of-le settle_ms = ground arith

-- Rounds that come too late take no samples.
take_samples-late :
    (lists : ℕ → Result (List Entry)) (pane : String) (settle_ms fuel : ℕ)
    → take_samples lists pane settle_ms fuel 4 ≡ []
unfolding take_samples
take_samples-late lists pane settle_ms zero = refl
take_samples-late lists pane settle_ms (suc fuel) = ground (arith, gap_of-le settle_ms)

-- A window of any length takes at most four samples of the pane, and more fuel than five rounds would
-- take no other ones.
pub take_samples-le :
    (lists : ℕ → Result (List Entry)) (pane : String) (settle_ms fuel : ℕ)
    → (length (take_samples lists pane settle_ms 5 0) ≤ 4)
      × (take_samples lists pane settle_ms (suc (suc (suc (suc fuel)))) 0
          ≡ take_samples lists pane settle_ms 5 0)
unfolding take_samples
take_samples-le lists pane settle_ms fuel =
    let late = take_samples-late lists pane settle_ms in
    (rw (late 1) (ground arith), rw (late fuel, late 1) refl)
