-- ===== src/Agents/Spawn.antt =====
-- `readinessSentinel` and `awaitShellReady` of src/spawn-readiness.ts. The answers of the local herdr are
-- parameters, and what was asked of it is a result; `id` is the random part of the marker.
use Prim.Native.String.{◌++◌ as text_append}
use herdr_web_broker.Common.{
  ℕ, ◌+◌, String, Bool, Option, some, none, List, [], ◌∷◌, nat_eq, if◌then◌else◌,
}

pub record Sentinel : Type 0 where
  pub text : String
  pub marker : String

unfoldable pub readiness_sentinel : String → Sentinel
readiness_sentinel id = record {
  text = text_append "printf '%s%s\\n' __herdr_ready_ " id;
  marker = text_append "__herdr_ready_" id;
}

pub data Request : Type 0 where
  sends_input : (text : String) → Request
  waits_for_output : (marker : String) → (timeout_ms request_timeout_ms : ℕ) → Request

-- `throws` is the error of the send, handed on; a failed wait is `not_ready`.
pub data Outcome : Type 0 where
  ready not_ready throws : Outcome

abbrev pub failed_send : Bool → Outcome
failed_send throw_on_send_failure = if throw_on_send_failure then throws else not_ready

-- Readiness is switched off: a prefix is sent all the same.
unfoldable pub send_prefix : Option String → Bool → (Request → Bool) → List Request × Outcome
send_prefix none throw_on_send_failure answers = ([], not_ready)
send_prefix (some prefix) throw_on_send_failure answers = (
  sends_input prefix ∷ [],
  if answers (sends_input prefix) then not_ready else failed_send throw_on_send_failure,
)

abbrev pub sentinel_line : Option String → Sentinel → String
sentinel_line none sentinel = sentinel.text
sentinel_line (some prefix) sentinel = text_append prefix (text_append "; " sentinel.text)

unfoldable pub send_sentinel :
    ℕ → Option String → Bool → String → (Request → Bool) → List Request × Outcome
send_sentinel timeout_ms prefix throw_on_send_failure id answers =
    let sentinel = readiness_sentinel id in
    let send = sends_input (sentinel_line prefix sentinel) in
    let wait = waits_for_output sentinel.marker timeout_ms (timeout_ms + 5000) in
    if answers send
    then (send ∷ wait ∷ [], if answers wait then ready else not_ready)
    else (send ∷ [], failed_send throw_on_send_failure)

-- `answers` says of each request whether it succeeds.
unfoldable pub await_shell_ready :
    ℕ → Option String → Bool → String → (Request → Bool) → List Request × Outcome
await_shell_ready timeout_ms prefix throw_on_send_failure id answers =
    if nat_eq timeout_ms 0
    then send_prefix prefix throw_on_send_failure answers
    else send_sentinel timeout_ms prefix throw_on_send_failure id answers
