-- ===== src/Client/Subscriptions.antt =====
-- `sanitizeSubscriptions` of src/ws-server.ts: what a client may ask herdr to tap.
pub mod Allowed
use mathlib.Core.Option
use herdr_web_broker.Common.{
  String, Bool, true, false, Option, some, none, List, [], ◌∷◌, ◌||◌, leb, any, length, str_eq,
  filter, if◌then◌else◌,
}
use herdr_web_broker.Common.Dict.{Dict, lookup}

-- A member of a subscription: text, or any other value, in its own form.
pub data Member : Type 0 where
  text : String → Member
  value : String → Member

-- An element of the array that the client sent.
pub data Element : Type 0 where
  object : Dict Member → Element
  other : Element

abbrev pub sub_types : List String
sub_types =
    "workspace.created" ∷ "workspace.updated" ∷ "workspace.metadata_updated" ∷ "workspace.renamed"
    ∷ "workspace.moved" ∷ "workspace.reordered" ∷ "workspace.closed" ∷ "workspace.focused"
    ∷ "worktree.created" ∷ "worktree.opened" ∷ "worktree.removed" ∷ "tab.created" ∷ "tab.closed"
    ∷ "tab.focused" ∷ "tab.renamed" ∷ "tab.moved" ∷ "pane.created" ∷ "pane.closed" ∷ "pane.updated"
    ∷ "pane.focused" ∷ "pane.moved" ∷ "pane.exited" ∷ "pane.agent_detected" ∷ "pane.output_matched"
    ∷ "pane.agent_status_changed" ∷ "pane.scroll_changed" ∷ "layout.updated" ∷ []

abbrev pub sub_keys : List String
sub_keys = "type" ∷ "pane_id" ∷ "match" ∷ "source" ∷ "lines" ∷ "strip_ansi" ∷ "agent_status" ∷ []

-- `set.has(text)`
abbrev pub has : String → List String → Bool
has s names = any (λ n. str_eq n s) names

-- `typeof sub.type === "string" && SUB_TYPES.has(sub.type)`
abbrev pub has_sub_type : Option Member → Bool
has_sub_type (some (text t)) = has t sub_types
has_sub_type (some (value v)) = false
has_sub_type none = false

abbrev pub keep_keys : Dict Member → Dict Member
keep_keys = filter (λ m. has m.0 sub_keys)

-- `raw.map(...)`, where a callback that throws ends the whole call.
sanitize_each : List Element → Option (List (Dict Member))
sanitize_each [] = some []
sanitize_each (other ∷ raw) = none
sanitize_each (object sub ∷ raw) =
    let rest = sanitize_each raw in
    if has_sub_type (lookup "type" sub)
    then Option.map (λ kept. keep_keys sub ∷ kept) rest
    else none

-- `none` for an argument that is no array, and for a thrown bad_request.
unfoldable pub sanitize_subscriptions : Option (List Element) → Option (List (Dict Member))
unfolding sanitize_each
sanitize_subscriptions none = none
sanitize_subscriptions (some raw) =
    if leb (length raw) 0 || leb 33 (length raw) then none else sanitize_each raw
