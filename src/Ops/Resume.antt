-- ===== src/Ops/Resume.antt =====
-- `renderResume` and `resolveResume` of src/workspace-ops.ts, and what they read of a `CliProfile` of
-- src/cli-profiles.ts. `profile_of` stands for `deps.profiles.get`.
use Prim.Native.String.{String, ◌++◌ as text_append}
use herdr_web_broker.Common.{ℕ, Option, some, none, List, [], ◌∷◌, ◌++◌, or_else}
use herdr_web_broker.State.{AgentMeta, get}
use herdr_web_broker.State.Resumable.{ResumableMeta, truthy}
use herdr_web_broker.Ops.{World, Result, ok, fail, ◌>>=◌, workspace_of}
use herdr_web_broker.Ops.Reap.{cwd_of}
use herdr_web_broker.Ops.Values.{Value, object, member, text_of}

pub data ResumeStyle : Type 0 where
  arg equals subcommand : ResumeStyle

pub record ResumeSyntax : Type 0 where
  pub flag : String
  pub style : Option ResumeStyle
  pub extra_args : List String

pub record CliProfile : Type 0 where
  pub kind : String
  pub pin_flag : Option String
  pub resume : Option ResumeSyntax
  pub unauthenticated : List String
  pub settle_ms : Option ℕ

unfoldable resume_head : ResumeStyle → String → String → List String
resume_head arg flag id = flag ∷ id ∷ []
resume_head equals flag id = text_append flag (text_append "=" id) ∷ []
resume_head subcommand flag id = flag ∷ id ∷ []

-- `renderResume(r, sessionId)`
pub render_resume : ResumeSyntax → String → List String
unfolding resume_head
render_resume r id = resume_head (or_else r.style arg) r.flag id ++ r.extra_args

-- The conversation, its kind and its directory, before the profile is looked up.
pub record Reference : Type 0 where
  pub session_id : String
  pub kind : String
  pub cwd : String

unfoldable pub archived_reference : Option ResumableMeta → Result Reference
archived_reference none = fail "unknown_session_ref" "no resumable conversation"
archived_reference (some row) =
    ok (record { session_id = row.session_id; kind = row.kind; cwd = row.cwd })

unfoldable pinned_reference : AgentMeta → Option String → Option String → Result Reference
pinned_reference meta none cwd = fail "bad_request" "the agent has no pinned session id"
pinned_reference meta (some id) none = fail "bad_request" "no recorded cwd for pane"
pinned_reference meta (some id) (some cwd) =
    ok (record { session_id = id; kind = meta.kind; cwd = cwd })

unfoldable pub live_reference : Option AgentMeta → Option String → Result Reference
unfolding pinned_reference
live_reference none cwd = fail "bad_request" "no agent recorded for pane"
live_reference (some meta) cwd = pinned_reference meta (truthy meta.session_id) (truthy cwd)

-- `!bySession === !byPane` is refused.
unfoldable pub find_reference : Option String → Option String → String → World → Result Reference
unfolding archived_reference live_reference
find_reference none none session w = fail "bad_request" "'resume' needs exactly one"
find_reference (some id) (some pane) session w = fail "bad_request" "'resume' needs exactly one"
find_reference (some id) none session w = archived_reference (get session id w.resumable)
find_reference none (some pane) session w =
    live_reference (get session pane w.agents) (cwd_of (get session (workspace_of pane) w.index))

pub record ResumeTarget : Type 0 where
  pub reference : Reference
  pub syntax : ResumeSyntax

abbrev pub syntax_of : Option CliProfile → Option ResumeSyntax
syntax_of none = none
syntax_of (some p) = p.resume

unfoldable pub with_syntax : Option ResumeSyntax → Reference → Result ResumeTarget
with_syntax none ref = fail "resume_unsupported" "no verified resume syntax"
with_syntax (some syntax) ref = ok (record { reference = ref; syntax = syntax })

abbrev pub field_of : String → Value → Option String
field_of name (object fields) = text_of (member name fields)
field_of name _ = none

unfoldable pub resolve_asked :
    (String → Option CliProfile) → String → Value → World → Result ResumeTarget
unfolding find_reference with_syntax
resolve_asked profile_of session r w = do
  ref ← find_reference (truthy (field_of "session_id" r)) (truthy (field_of "pane_id" r)) session w
  with_syntax (syntax_of (profile_of ref.kind)) ref

-- `resolveResume(deps, session, p)`, with `p.resume`.
unfoldable pub resolve_resume :
    (String → Option CliProfile) → String → Option Value → World → Result (Option ResumeTarget)
unfolding resolve_asked
resolve_resume profile_of session none w = ok none
resolve_resume profile_of session (some r) w = do
  target ← resolve_asked profile_of session r w
  ok (some target)
