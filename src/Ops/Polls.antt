-- ===== src/Ops/Polls.antt =====
-- The long polls of src/workspace-ops.ts: `screen` and `specGet`, which wait for another version of what the
-- caller knows, and the loop of `execCommand`. A round has one time, in ms, and reads once.
pub mod Fresh
pub mod Finished
mod Rounds
pub mod Answers
mod Tests
use Prim.Native.String.{String, count}
use herdr_web_broker.Common.{
  ℕ, zero, suc, ◌+◌, Bool, true, false, not, Option, some, none, leb, ltb, nat_eq, str_eq, or_else,
  if◌then◌else◌,
}
use herdr_web_broker.State.Resumable.{truthy}
use herdr_web_broker.Ops.{Result, ok, throws, fail, ◌>>=◌}
use herdr_web_broker.Ops.Values.{Value, text, clamp}

-- What a poll answers: the content of a round and its version, or that nothing has changed.
pub data Reply (A : Type 0) : Type 0 where
  fresh : (round : ℕ) → A → (version : String) → Reply A
  unchanged : (round : ℕ) → (version : String) → Reply A
  out_of_fuel : Reply A

-- `!known || version !== known`
abbrev pub is_changed : Option String → String → Bool
is_changed none version = true
is_changed (some known) version = not (str_eq known version)

module _ {A : Type 0} where
  unfoldable pub poll_round :
      Option String → Bool → ℕ → A × String → Result (Reply A) → Result (Reply A)
  poll_round known is_over i (a, version) later =
      if is_changed known version
      then ok (fresh i a version)
      else if is_over
      then ok (unchanged i version)
      else later

  -- `for (;;)`, with what is read in each round, and the time of each round.
  unfoldable pub poll_loop :
      (ℕ → Result (A × String)) → (ℕ → ℕ) → Option String → ℕ → ℕ → ℕ → Result (Reply A)
  unfolding poll_round
  poll_loop reads clock known deadline zero i = ok out_of_fuel
  poll_loop reads clock known deadline (suc fuel) i =
      let later = poll_loop reads clock known deadline fuel (i + 1) in
      reads i >>= λ r. poll_round known (leb deadline (clock i)) i r later

-- `Math.min(Math.max(wait_ms, 0), 30_000)`
abbrev pub wait_of : Option ℕ → ℕ
wait_of wait_ms = clamp 0 30000 (or_else wait_ms 0)

abbrev pub screen_cap_chars : ℕ
screen_cap_chars = 262144

pub record Screen : Type 0 where
  pub screen : String
  pub truncated : Bool

-- The text of a read, and its version; `cut` keeps the last `SCREEN_CAP_CHARS` characters, and `digest`
-- stands for the first 16 digits of the SHA-256.
unfoldable pub screen_read : (String → String) → (String → String) → Option String → Screen × String
screen_read cut digest read =
    let shown = or_else read "" in
    let is_long = ltb screen_cap_chars (count shown) in
    let kept = if is_long then cut shown else shown in
    (record { screen = kept; truncated = is_long }, digest kept)

abbrev pub read_screen :
    (String → String) → (String → String) → Result (Option String) → Result (Screen × String)
read_screen cut digest answer = answer >>= λ read. ok (screen_read cut digest read)

unfoldable pub source_of : Option Value → Result String
source_of none = ok "visible"
source_of (some (text s)) =
    if str_eq s "visible"
    then ok s
    else if str_eq s "recent"
    then ok s
    else fail "bad_request" "'source' must be 'visible' or 'recent'"
source_of (some _) = fail "bad_request" "'source' must be 'visible' or 'recent'"

-- `screen(deps, session, p)`, where `reads` is what `pane.read` answers in each round; the fuel is for a
-- round in every millisecond of the wait.
pub screen :
    (String → String)
    → (String → String)
    → (ℕ → Result (Option String))
    → (ℕ → ℕ)
    → Option Value
    → Option String
    → Option ℕ
    → ℕ
    → Result (Reply Screen)
unfolding poll_loop source_of screen_read
screen cut digest reads clock source version wait_ms started = do
  from ← source_of source
  poll_loop (λ i. read_screen cut digest (reads i)) clock (truthy version)
      (started + wait_of wait_ms) (suc (wait_of wait_ms)) 0

abbrev pub bundle_read : {A : Type 0} → Option (A × String) → Result (A × String)
bundle_read none = fail "unknown_bundle" "no such spec bundle"
bundle_read (some b) = ok b

-- The loop of `specGet(deps, session, p)`, where `bundles` is what `readBundle` gives in each round.
pub spec_get :
    {A : Type 0}
    → (ℕ → Option (A × String))
    → (ℕ → ℕ)
    → Option String
    → Option ℕ
    → ℕ
    → Result (Reply A)
unfolding poll_loop
spec_get bundles clock version wait_ms started =
    poll_loop (λ i. bundle_read (bundles i)) clock (truthy version) (started + wait_of wait_ms)
      (suc (wait_of wait_ms)) 0

-- How `execCommand` ends, and whether `broker.exec.finished` is emitted.
pub data Exec : Type 0 where
  finished : (exit_code : ℕ) → (emitted : Bool) → Exec
  timed_out : Exec
  out_of_fuel : Exec

abbrev pub succeeded : ℕ → Bool
succeeded exit_code = nat_eq exit_code 0

unfoldable pub last_code : Option ℕ → Exec
last_code none = timed_out
last_code (some code) = finished code true

-- `readCode()` in each round, and once more at the end.
unfoldable pub exec_loop : (ℕ → Option ℕ) → Option ℕ → (ℕ → ℕ) → ℕ → ℕ → ℕ → Exec
unfolding last_code
exec_loop codes last clock deadline zero i = out_of_fuel
exec_loop codes last clock deadline (suc fuel) i =
    let later = exec_loop codes last clock deadline fuel (i + 1) in
    if ltb (clock i) deadline
    then (elim (codes i) [ none ↦ later | some code ↦ finished code false ])
    else last_code last

-- The loop of `execCommand(deps, session, p)`.
unfoldable pub exec_command : (ℕ → Option ℕ) → Option ℕ → (ℕ → ℕ) → ℕ → ℕ → Exec
unfolding exec_loop
exec_command codes last clock budget started =
    exec_loop codes last clock (started + budget) (suc budget) 0
