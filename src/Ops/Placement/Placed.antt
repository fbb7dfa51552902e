-- ===== src/Ops/Placement/Placed.antt =====
-- `spawn` of src/workspace-ops.ts: what its checks let through.
use herdr_web_broker.Common.{
  ◌≡◌, refl, String, Bool, Option, some, none, arith, eq_iff, is_some, sym, subst,
}
use herdr_web_broker.State.Resumable.{truthy}
use herdr_web_broker.Ops.{World, Result, ok, throws, ◌>>=◌}
use herdr_web_broker.Ops.Workspaces.{Listing}
use herdr_web_broker.Ops.Values.{Value, Fields, member}
use herdr_web_broker.Ops.Resume.{
  CliProfile, ResumeSyntax, ResumeTarget, Reference, syntax_of, with_syntax, find_reference,
  field_of, resolve_asked, resolve_resume,
}
use herdr_web_broker.Ops.Placement.{
  Branch, Plan, directory_for, plan_spawn, branch_of, own_directory, kind_for,
}

abbrev pub Ensures {ℓ} : {A : Type ℓ} → (A → Type 0) → Result A → Type 0
Ensures P (ok a) = P a
Ensures P (throws e) = Unit

pub Ensures->>= {ℓ κ} :
    {A : Type ℓ} {B : Type κ} (P : B → Type 0) (m : Result A) (f : A → Result B)
    → ((a : A) → m ≡ ok a → Ensures P (f a))
    → Ensures P (m >>= f)
Ensures->>= P (ok a) f h = h a refl
Ensures->>= P (throws e) f h = tt

-- Where an agent that resumes a conversation of the directory `home` runs: there, unless it has a branch of
-- its own, and then in the checkout, if herdr answers its path.
abbrev pub RunsIn : Option Branch → Option String → String → String → Type 0
RunsIn none path home dir = dir ≡ home
RunsIn (some b) none home dir = dir ≡ home
RunsIn (some b) (some checkout) home dir = dir ≡ checkout

-- The plan starts from the directory of the conversation, with its kind, and the syntax of that kind.
abbrev pub Resumes :
    (String → Option CliProfile) → Plan → Option String → Option ResumeTarget → Type 0
Resumes profile_of plan path none = Unit
Resumes profile_of plan path (some t) =
    (plan.cwd ≡ t.reference.cwd)
    × RunsIn plan.branch path t.reference.cwd (directory_for plan.branch path plan.cwd)
    × (plan.kind ≡ t.reference.kind)
    × (syntax_of (profile_of plan.kind) ≡ some t.syntax)

directory_for-RunsIn :
    (branch : Option Branch) (path : Option String) (cwd home : String)
    → cwd ≡ home
    → RunsIn branch path home (directory_for branch path cwd)
directory_for-RunsIn none path cwd home e = e
directory_for-RunsIn (some b) none cwd home e = e
directory_for-RunsIn (some b) (some checkout) cwd home e = refl

-- A plan with a branch of its own joins no workspace.
abbrev pub Isolates : Option Branch → Option String → Type 0
Isolates none joins = Unit
Isolates (some b) joins = joins ≡ none

abbrev pub HasSyntax : (String → Option CliProfile) → Option ResumeTarget → Type 0
HasSyntax profile_of none = Unit
HasSyntax profile_of (some t) = syntax_of (profile_of t.reference.kind) ≡ some t.syntax

module _ (profile_of : String → Option CliProfile) (session : String) (w : World) where
  with_syntax-HasSyntax :
      (o : Option ResumeSyntax) (ref : Reference)
      → syntax_of (profile_of ref.kind) ≡ o
      → Ensures (λ t. HasSyntax profile_of (some t)) (with_syntax o ref)
  unfolding with_syntax
  with_syntax-HasSyntax none ref h = tt
  with_syntax-HasSyntax (some syntax) ref h = h

  resolve_resume-HasSyntax :
      (resume : Option Value)
      → Ensures (HasSyntax profile_of) (resolve_resume profile_of session resume w)
  unfolding resolve_resume resolve_asked
  resolve_resume-HasSyntax none = tt
  resolve_resume-HasSyntax (some r) =
      let found =
        find_reference (truthy (field_of "session_id" r)) (truthy (field_of "pane_id" r)) session
          w in
      Ensures->>= (HasSyntax profile_of) (resolve_asked profile_of session r w) _ (λ t e.
        subst (Ensures (λ x. HasSyntax profile_of (some x))) e (
          Ensures->>= (λ x. HasSyntax profile_of (some x)) found _
            (λ ref _. with_syntax-HasSyntax (syntax_of (profile_of ref.kind)) ref refl)))

  own_directory-eq :
      (t : ResumeTarget) (cwd : String) → own_directory (some t) cwd ≡ ok tt → cwd ≡ t.reference.cwd
  unfolding own_directory
  own_directory-eq t cwd h = ground (arith, eq_iff cwd t.reference.cwd, h)

  branch_of-Isolates :
      (wt : Option Value) (joins : Option String)
      → Ensures (λ b. Isolates b joins) (branch_of wt (is_some joins))
  unfolding branch_of
  branch_of-Isolates none joins = tt
  branch_of-Isolates (some wt) (some id) = tt
  branch_of-Isolates (some wt) none = alone _
    where
      alone : (r : Result (Option Branch)) → Ensures (λ b. Isolates b none) r
      alone (ok none) = tt
      alone (ok (some b)) = refl
      alone (throws e) = tt

  plan-Resumes :
      (target : Option ResumeTarget) (plan : Plan) (path : Option String) (kind : Option Value)
      → plan.target ≡ target
      → HasSyntax profile_of target
      → kind_for target kind ≡ ok plan.kind
      → own_directory target plan.cwd ≡ ok tt
      → Resumes profile_of plan path target
  unfolding kind_for
  plan-Resumes none plan path kind e syntax kind_is owned = tt
  plan-Resumes (some t) plan path kind e syntax kind_is owned =
      let same : t.reference.kind ≡ plan.kind = cc kind_is in
      (
        own_directory-eq t plan.cwd owned,
        directory_for-RunsIn plan.branch path plan.cwd t.reference.cwd
            (own_directory-eq t plan.cwd owned),
        sym same,
        subst (λ k. syntax_of (profile_of k) ≡ some t.syntax) same syntax,
      )

  planned :
      (stat : String → Option Bool) (listing : Listing) (p : Fields) (plan : Plan)
      → plan_spawn profile_of stat listing session p w ≡ ok plan
      → (resolve_resume profile_of session (member "resume" p) w ≡ ok plan.target)
        × (kind_for plan.target (member "kind" p) ≡ ok plan.kind)
        × (branch_of (member "worktree" p) (is_some plan.joins) ≡ ok plan.branch)
        × (own_directory plan.target plan.cwd ≡ ok tt)
  unfolding plan_spawn
  planned stat listing p plan h = ground (arith, h)

  -- A spawn that resumes a conversation starts from the directory in which it happened, as the kind of
  -- agent that had it, with the flags that its profile has for that, and runs in that directory, unless it
  -- has a branch of its own: then it runs in the checkout whose path herdr answers. One with a branch of its
  -- own never joins a workspace.
  pub plan_spawn-Resumes :
      (stat : String → Option Bool) (listing : Listing) (p : Fields) (plan : Plan)
      (path : Option String)
      → plan_spawn profile_of stat listing session p w ≡ ok plan
      → Resumes profile_of plan path plan.target × Isolates plan.branch plan.joins
  plan_spawn-Resumes stat listing p plan path h =
      let facts = planned stat listing p plan h in
      (
        plan-Resumes plan.target plan path (member "kind" p) refl
            (subst (Ensures (HasSyntax profile_of)) facts.0
              (resolve_resume-HasSyntax (member "resume" p)))
            facts.1 facts.3,
        subst (Ensures (λ b. Isolates b plan.joins)) facts.2
            (branch_of-Isolates (member "worktree" p) plan.joins),
      )
