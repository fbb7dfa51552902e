-- ===== src/Ops/Ask/Lock.antt =====
-- `ask` of src/workspace-ops.ts: one ask at a time on a pane. `inner` is `askInner`, which may find the
-- world changed by what happens while it waits.
pub mod Exclusive
use Prim.Native.String.{◌++◌ as text_append}
use herdr_web_broker.Common.{
  ℕ, zero, suc, ◌+◌, ◌≤◌, ◌≡◌, refl, String, Bool, true, false, not, Option, some, none, List, [],
  ◌∷◌, ◌++◌, filter, any, str_eq, eq_iff, eq_refl, if◌then◌else◌, arith, Bool-cases, inl, inr, to_ℕ,
  is_some,
}
use herdr_web_broker.Ops.{World, Result, ok, throws, fail, is_ok}
use herdr_web_broker.Ops.Ask.{AskResult}

abbrev pub lock_key : String → String → String
lock_key session pane = text_append session (text_append ":" pane)

-- `locks.has(key)`, `locks.add(key)` and `locks.delete(key)`
abbrev pub has_lock : String → List String → Bool
has_lock key locks = any (λ k. str_eq k key) locks

abbrev pub add_lock : String → List String → List String
add_lock key locks = if has_lock key locks then locks else locks ++ key ∷ []

abbrev pub delete_lock : String → List String → List String
delete_lock key locks = filter (λ k. not (str_eq k key)) locks

pub record Asked : Type 0 where
  pub world : World
  pub result : Result AskResult
  -- whether `broker.ask.completed` is emitted
  pub completed : Bool

-- `add`, unless the pane is busy.
unfoldable pub take_lock : String → List String → Option (List String)
take_lock key locks = if has_lock key locks then none else some (add_lock key locks)

unfoldable pub ask_locked :
    String → Option (List String) → (World → World × Result AskResult) → World → Asked
ask_locked key none inner w = record {
  world = w;
  result = fail "pane_busy" "an ask is already in flight";
  completed = false;
}
ask_locked key (some locks) inner w =
    let done = inner (record w { ask_locks = locks }) in
    record {
      world = record done.0 { ask_locks = delete_lock key done.0.ask_locks };
      result = done.1;
      completed = is_ok done.1;
    }

-- `ask(deps, session, p)`
pub ask : String → String → (World → World × Result AskResult) → World → Asked
unfolding take_lock ask_locked
ask session pane inner w =
    let key = lock_key session pane in ask_locked key (take_lock key w.ask_locks) inner w

-- The asks of a broker, whose starts and ends are in any order; each is known by the key of its lock.
pub record Flight : Type 0 where
  pub locks : List String
  pub running : List String

pub data Happening : Type 0 where
  begins ends : (key : String) → Happening

unfoldable pub end_one : String → List String → List String
end_one key [] = []
end_one key (k ∷ running) = if str_eq k key then running else k ∷ end_one key running

abbrev begin_with : Option (List String) → String → Flight → Flight
begin_with none key f = f
begin_with (some locks) key f = record { locks = locks; running = key ∷ f.running }

unfoldable pub step : Flight → Happening → Flight
unfolding take_lock end_one
step f (begins key) = begin_with (take_lock key f.locks) key f
step f (ends key) =
    if has_lock key f.running
    then record { locks = delete_lock key f.locks; running = end_one key f.running }
    else f

pub run : Flight → List Happening → Flight
unfolding step
run f [] = f
run f (h ∷ hs) = run (step f h) hs
