-- ===== src/Ops/Drivers.antt =====
-- What src/workspace-ops.ts types into a pane: `slash`, `switchModel`, `steer` and the command line of
-- `execCommand`. `sends` is what herdr answers to the request that carries the text.
pub mod OneLine
mod Tests
use Prim.Native.Char.{Char, code}
use Prim.Native.String as Text
use Prim.Native.String.{String, ◌++◌, count}
use herdr_web_broker.Common.{
  ℕ, Bool, true, false, not, ◌&&◌, ◌||◌, Option, some, none, List, is_some, leb, ltb, nat_eq,
  str_eq, if◌then◌else◌,
}
use herdr_web_broker.Common.Text.{trim}
use herdr_web_broker.State.Resumable.{truthy}
use herdr_web_broker.Runtime.Models.{ModelRegistry, find_model, switch_command}
use herdr_web_broker.Ops.{Result, ok, throws, fail, ◌>>=◌}
use herdr_web_broker.Ops.Panes.{Entry, agent_in_pane, target_of}
use herdr_web_broker.Ops.Values.{Value, text, Fields, member, str}

-- `\p{Cc}`
abbrev pub is_control : Char → Bool
is_control c = leb (code c) 31 || (leb 127 (code c) && leb (code c) 159)

unfoldable pub has_control : String → Bool
has_control Text.[] = false
has_control (Text.◌∷◌ c s) = is_control c || has_control s

abbrev is_between : ℕ → ℕ → Char → Bool
is_between a b c = leb a (code c) && leb (code c) b

-- `[a-zA-Z0-9]` and `[a-zA-Z0-9_-]`
abbrev pub is_alphanumeric : Char → Bool
is_alphanumeric c = is_between 97 122 c || (is_between 65 90 c || is_between 48 57 c)

abbrev pub is_command_char : Char → Bool
is_command_char c = is_alphanumeric c || (nat_eq (code c) 95 || nat_eq (code c) 45)

unfoldable pub are_command_chars : String → Bool
are_command_chars Text.[] = true
are_command_chars (Text.◌∷◌ c s) = is_command_char c && are_command_chars s

unfoldable pub is_command : String → Bool
unfolding are_command_chars
is_command Text.[] = false
is_command (Text.◌∷◌ c s) = is_alphanumeric c && (are_command_chars s && leb (count s) 31)

unfoldable pub checked_command : String → Result String
unfolding is_command
checked_command command =
    if is_command command
    then ok command
    else fail "bad_request" "'command' must be a slash command"

unfoldable pub slash_args : Option Value → Result (Option String)
unfolding has_control
slash_args none = ok none
slash_args (some (text args)) =
    if ltb 512 (count args) || has_control args
    then fail "bad_request" "'args' must be a single line"
    else ok (truthy (some (trim args)))
slash_args (some _) = fail "bad_request" "'args' must be a single line"

unfoldable pub slash_text : String → Option String → String
slash_text command none = "/" ++ command
slash_text command (some args) = "/" ++ (command ++ (" " ++ args))

-- What was typed, and into an agent of which kind.
pub record Sent : Type 0 where
  pub kind : String
  pub command : String

-- `slash(deps, session, p)`, for the pane whose agents are polled.
unfoldable pub slash :
    (ℕ → Result (List Entry)) → (String → Result (Unit {0})) → String → Fields → Result Sent
slash polls sends pane p = do
  name ← str (member "command" p) "command"
  command ← checked_command name
  args ← slash_args (member "args" p)
  occupant ← agent_in_pane polls pane
  sent ← sends (slash_text command args)
  ok (record { kind = occupant.0; command = slash_text command args })

abbrev listed_model : Bool → Result (Unit {0})
listed_model true = ok tt
listed_model false = fail "unknown_model" "no such model for this kind"

abbrev switch_of : Option String → Result String
switch_of none = fail "model_switch_unsupported" "no switch command for this kind"
switch_of (some command) = ok command

-- `switchModel(deps, session, p)`; `replace` puts a model's id into a template.
unfoldable pub switch_model :
    (String → String → String)
    → ModelRegistry
    → (ℕ → Result (List Entry))
    → (String → Result (Unit {0}))
    → String
    → Fields
    → Result Sent
switch_model replace models polls sends pane p = do
  model ← str (member "model" p) "model"
  occupant ← agent_in_pane polls pane
  known ← listed_model (is_some (find_model occupant.0 model models))
  command ← switch_of (truthy (switch_command replace occupant.0 model models))
  sent ← sends command
  ok (record { kind = occupant.0; command = command })

abbrev addressable : String → Result String
addressable target =
    if str_eq target ""
    then fail "upstream_error" "the agent has no addressable name"
    else ok target

abbrev pub with_preamble : Option String → String → String
with_preamble none prompt = prompt
with_preamble (some preamble) prompt = preamble ++ ("\n\n" ++ prompt)

abbrev within_cap : String → Result (Unit {0})
within_cap prompt =
    if ltb 32000 (count prompt)
    then fail "bad_request" "'text' must be at most 32000 chars"
    else ok tt

-- `steer(deps, session, p)`; `preamble` is none too where it cannot be computed.
unfoldable pub steer :
    (ℕ → Result (List Entry))
    → (String → String → Result (Unit {0}))
    → Option String
    → String
    → Fields
    → Result Sent
steer polls prompts preamble pane p = do
  prompt ← str (member "text" p) "text"
  short ← within_cap prompt
  occupant ← agent_in_pane polls pane
  target ← addressable (target_of "" occupant.1)
  sent ← prompts target (with_preamble (truthy preamble) prompt)
  ok (record { kind = occupant.0; command = target })

-- `[\r\n]`
unfoldable pub has_newline : String → Bool
has_newline Text.[] = false
has_newline (Text.◌∷◌ c s) = nat_eq (code c) 13 || (nat_eq (code c) 10 || has_newline s)

-- The line that `execCommand` types, where `id` is the random name of the drop file.
unfoldable pub exec_line : String → Fields → Result String
unfolding has_newline
exec_line id p = str (member "command" p) "command" >>= λ command.
    if ltb 8000 (count command) || has_newline command
    then fail "bad_request" "'command' must be a single line of at most 8000 chars"
    else ok (command ++ ("; echo $? > .herdr/exits/" ++ id))
