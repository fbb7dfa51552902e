-- ===== src/Ops/Placement.antt =====
-- The checks of `spawn` of src/workspace-ops.ts on its parameters: whose conversation, and in which
-- directory. `stat` stands for `statSync`: whether the path is a directory, or none where it throws. A
-- path is absolute as on POSIX.
pub mod Placed
use Prim.Native.Char.{Char, code}
use Prim.Native.String as Text
use Prim.Native.String.{String}
use herdr_web_broker.Common.{
  ℕ, Bool, true, false, not, ◌&&◌, ◌||◌, Option, some, none, List, [], ◌∷◌, is_some, leb, ltb,
  or_else, nat_eq, str_eq, starts_with, if◌then◌else◌,
}
use herdr_web_broker.State.Resumable.{truthy}
use herdr_web_broker.Ops.{World, Result, ok, throws, fail, ◌>>=◌}
use herdr_web_broker.Ops.Workspaces.{Listing, resolve_cwd}
use herdr_web_broker.Ops.Values.{
  Value, text, list, Items, nil, cons, Fields, object, member, text_of, str,
}
use herdr_web_broker.Ops.Resume.{CliProfile, ResumeTarget, Reference, field_of, resolve_resume}

-- `a.length <= 256` for every element, all of them texts.
unfoldable pub read_args : Items → Result (List String)
read_args nil = ok []
read_args (cons (text a) items) =
    let rest = read_args items in
    if leb (Text.count a) 256
    then (rest >>= λ args. ok (a ∷ args))
    else fail "bad_request" "'args' must be an array of strings"
read_args (cons _ items) = fail "bad_request" "'args' must be an array of strings"

unfoldable pub args_of : Option Value → Result (Option (List String))
unfolding read_args
args_of none = ok none
args_of (some (list items)) = read_args items >>= λ args. ok (some args)
args_of (some _) = fail "bad_request" "'args' must be an array of strings"

-- `[\p{Cc}\s]`
abbrev pub is_blank : Char → Bool
is_blank c =
    let n = code c in
    leb n 32
    || (leb 127 n && leb n 160
        || (nat_eq n 5760
            || (leb 8192 n && leb n 8202
                || (nat_eq n 8232
                    || (nat_eq n 8233
                        || (nat_eq n 8239
                            || (nat_eq n 8287 || (nat_eq n 12288 || nat_eq n 65279))))))))

unfoldable pub has_blank : String → Bool
has_blank Text.[] = false
has_blank (Text.◌∷◌ c s) = is_blank c || has_blank s

pub record Branch : Type 0 where
  pub branch : String
  pub base : Option String

unfoldable branch_named : Option String → Option String → Result (Option Branch)
unfolding has_blank
branch_named none base = fail "bad_request" "'worktree.branch' is required"
branch_named (some name) base =
    if ltb 200 (Text.count name) || has_blank name
    then fail "bad_request" "'worktree.branch' is required"
    else ok (some (record { branch = name; base = base }))

-- `p.worktree`
unfoldable pub branch_of : Option Value → Bool → Result (Option Branch)
unfolding branch_named
branch_of none has_ws = ok none
branch_of (some wt) true = fail "bad_request" "'worktree' spawns need 'cwd'"
branch_of (some wt) false =
    branch_named (truthy (field_of "branch" wt)) (truthy (field_of "base" wt))

unfoldable directory : Option Bool → String → Result String
directory none cwd = fail "bad_request" "'cwd' does not exist"
directory (some false) cwd = fail "bad_request" "'cwd' is not a directory"
directory (some true) cwd = ok cwd

unfoldable absolute : (String → Option Bool) → String → Result String
unfolding directory
absolute stat cwd =
    if starts_with cwd "/"
    then directory (stat cwd) cwd
    else fail "bad_request" "'cwd' must be an absolute path"

-- The directory: of the workspace that is joined, as it is given, or the conversation's own.
unfoldable pub cwd_for :
    (String → Option Bool)
    → Listing
    → String
    → World
    → Option ResumeTarget
    → Option String
    → Option String
    → Result String
unfolding absolute
cwd_for stat listing session w target cwd (some id) = resolve_cwd listing session id w.index
cwd_for stat listing session w target (some cwd) none = absolute stat cwd
cwd_for stat listing session w (some t) none none = ok t.reference.cwd
cwd_for stat listing session w none none none =
    fail "bad_request" "exactly one of 'cwd' and 'workspace_id' is required"

-- `hasCwd === hasWs && !(resumeReq && !hasCwd && !hasWs)` is refused.
unfoldable pub one_place : Bool → Bool → Bool → Result (Unit {0})
one_place true true resumes =
    fail "bad_request" "exactly one of 'cwd' and 'workspace_id' is required"
one_place false false false =
    fail "bad_request" "exactly one of 'cwd' and 'workspace_id' is required"
one_place false false true = ok tt
one_place true false resumes = ok tt
one_place false true resumes = ok tt

unfoldable pub own_directory : Option ResumeTarget → String → Result (Unit {0})
own_directory none cwd = ok tt
own_directory (some t) cwd =
    if str_eq cwd t.reference.cwd
    then ok tt
    else fail "bad_request" "cannot resume from another directory"

unfoldable pub kind_for : Option ResumeTarget → Option Value → Result String
kind_for none kind = str kind "kind"
kind_for (some t) kind = ok t.reference.kind

pub record Plan : Type 0 where
  pub kind : String
  pub target : Option ResumeTarget
  pub args : Option (List String)
  pub branch : Option Branch
  pub joins : Option String
  pub cwd : String
  pub label : Option String

-- Where the agent runs: in the checkout of its branch, at the path that herdr answers, or in the directory
-- of the plan.
abbrev pub directory_for : Option Branch → Option String → String → String
directory_for none path cwd = cwd
directory_for (some b) path cwd = or_else path cwd

-- `spawn` up to the env: what it will do, before anything is made.
unfoldable pub plan_spawn :
    (String → Option CliProfile)
    → (String → Option Bool)
    → Listing
    → String
    → Fields
    → World
    → Result Plan
plan_spawn profile_of stat listing session p w = do
  let cwd = text_of (member "cwd" p)
  let joins = text_of (member "workspace_id" p)
  target ← resolve_resume profile_of session (member "resume" p) w
  kind ← kind_for target (member "kind" p)
  placed ← one_place (is_some cwd) (is_some joins) (is_some target)
  args ← args_of (member "args" p)
  branch ← branch_of (member "worktree" p) (is_some joins)
  dir ← cwd_for stat listing session w target cwd joins
  own ← own_directory target dir
  ok (record {
    kind = kind;
    target = target;
    args = args;
    branch = branch;
    joins = joins;
    cwd = dir;
    label = text_of (member "label" p);
  })
