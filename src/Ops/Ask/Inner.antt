-- ===== src/Ops/Ask/Inner.antt =====
-- `askInner` and `assertWithinWorkspace` of src/workspace-ops.ts. A path is the list of its segments, the
-- deepest first; `exists` and `real` stand for `existsSync` and `realpathSync`.
use Prim.Native.String.{String, ◌++◌}
use herdr_web_broker.Common.{
  ℕ, Bool, ◌||◌, Option, some, none, List, [], ◌∷◌, str_eq, starts_with, or_else, if◌then◌else◌,
}
use herdr_web_broker.State.{Index, WorkspaceMeta}
use herdr_web_broker.State.Resumable.{truthy}
use herdr_web_broker.Ops.{Result, ok, fail, ◌>>=◌, workspace_of}
use herdr_web_broker.Ops.Panes.{Entry, entry_in, target_of}
use herdr_web_broker.Ops.Workspaces.{Listing, resolve_cwd}
use herdr_web_broker.Ops.Values.{Value, clamp}
use herdr_web_broker.Ops.Ask.{Pacing, Round, File, AskResult, await_answer}

abbrev pub Segments : Type 0
Segments = List String

-- `while (!existsSync(probe)) probe = dirname(probe)`; the root is its own parent, and exists.
unfoldable pub probe : (Segments → Bool) → Segments → Segments
probe exists [] = []
probe exists (s ∷ up) = if exists (s ∷ up) then s ∷ up else probe exists up

-- `assertWithinWorkspace(cwd, dir, label)`
unfoldable pub assert_within_workspace :
    (Segments → Bool) → (Segments → String) → Segments → Segments → Result (Unit {0})
unfolding probe
assert_within_workspace exists real cwd dir =
    let real_probe = real (probe exists dir) in
    if str_eq real_probe (real cwd) || starts_with real_probe (real cwd ++ "/")
    then ok tt
    else fail "unknown_workspace" "workspace dir escapes the workspace"

-- The prompt, with the contract of its answer.
unfoldable pub ask_text : Option String → String → String → String → String
ask_text context prompt id cwd =
    (elim (truthy context) [ none ↦ "" | some line ↦ line ++ "\n\n" ])
    ++ (prompt
        ++ ("\n\nWhen you are finished, write ONLY a JSON object of the form "
            ++ ("{\"answer\": <your answer as JSON>} to the file .herdr/answers/"
                ++ (id
                    ++ (".json (relative to "
                        ++ (cwd ++ "). The file must contain valid JSON and nothing else."))))))

unfoldable pub target_in : Option Entry → Result String
target_in none = fail "bad_request" "no agent in pane"
target_in (some e) =
    let target = target_of "" e in
    if str_eq target ""
    then fail "upstream_error" "agent in pane has no addressable name"
    else ok target

unfoldable pub budget_of : Option ℕ → ℕ
budget_of timeout_ms = clamp 1000 600000 (or_else timeout_ms 120000)

-- What the calls of herdr and the disk answer in the course of an ask.
pub record Answers : Type 0 where
  pub listing : Listing
  pub agents : Result (List Entry)
  pub within : String → Result (Unit {0})
  pub context : String → Option String
  pub prompted : (target text : String) → Result (Unit {0})
  pub started : ℕ
  pub rounds : ℕ → Round
  pub last : Option File

-- `askInner(deps, session, pane, prompt, p)`; the budget of `pacing` gives way to that of the call, and `id` is the random name of the answer file.
pub ask_inner :
    (String → Option Value)
    → Pacing
    → Option ℕ
    → String
    → String
    → String
    → String
    → Answers
    → Index WorkspaceMeta
    → Result AskResult
unfolding target_in budget_of
ask_inner parse pacing timeout_ms session pane prompt id a index = do
  cwd ← resolve_cwd a.listing session (workspace_of pane) index
  entries ← a.agents
  target ← target_in (entry_in pane entries)
  contained ← a.within cwd
  sent ← a.prompted target (ask_text (a.context cwd) prompt id cwd)
  await_answer parse (record pacing { budget = budget_of timeout_ms }) a.started a.rounds a.last
