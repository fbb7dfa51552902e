-- ===== src/Git/Verbs.antt =====
-- `repoDiff`, `repoCommit`, `repoLog`, `repoPush` and `repoCheckout` of src/git-exec.ts. `show` writes a number
-- in decimals, and `cap` cuts a text after `DIFF_CAP_BYTES` bytes.
pub mod Options
use Prim.Native.String.{String, ◌++◌, len}
use herdr_web_broker.Common.{
  ℕ, Bool, true, false, not, ◌&&◌, ◌||◌, Option, some, none, List, [], ◌∷◌, any, map, min, ltb,
  str_eq, starts_with, get_elem?, or_else, if◌then◌else◌,
}
use mathlib.Core.List.{◌++◌ as append}
use herdr_web_broker.Common.Text.{trim, split, non_empty, first}
use herdr_web_broker.Ops.{Result, ok, throws, fail}
use herdr_web_broker.Git.{M, Git, pure, after, ◌>>=◌, ◌>>◌, lift, catch_with, validate_ref}
use herdr_web_broker.Git.Status.{Row, status_rows}

abbrev pub lines : String → List String
lines = split 10

-- `a?.trim() || other`
abbrev pub trimmed_or : {R : Type 0} → Option String → M R String → M R String
trimmed_or none other = other
trimmed_or (some s) other = if str_eq (trim s) "" then other else pure (trim s)

pub record DiffResult : Type 0 where
  pub branch : String
  pub status : List Row
  pub diff : String
  pub truncated : Bool
  pub full_bytes : Option ℕ

pub record Author : Type 0 where
  pub name : String
  pub email : String

pub record CommitOptions : Type 0 where
  pub message : String
  pub add_all : Bool
  pub author : Option Author

pub data CommitResult : Type 0 where
  clean : CommitResult
  committed : (commit branch subject : String) → CommitResult

pub record LogEntry : Type 0 where
  pub sha : Option String
  pub subject : Option String
  pub author : Option String
  pub when : Option String

pub record Pushed : Type 0 where
  pub remote : String
  pub branch : String
  pub detail : String

abbrev pub diff_cap_bytes : ℕ
diff_cap_bytes = 786432

-- `l.length > 0 && l[0] !== " " && l[0] !== "?"`
abbrev is_staged : String → Bool
is_staged l = not (str_eq l "" || (starts_with l " " || starts_with l "?"))

abbrev first_line : List String → String
first_line [] = ""
first_line (l ∷ ls) = l

abbrev pub entry_of : List String → LogEntry
entry_of fields = record {
  sha = get_elem? fields 0;
  subject = get_elem? fields 1;
  author = get_elem? fields 2;
  when = get_elem? fields 3;
}

module _ {R : Type 0} (git : Git R) where
  unfoldable pub head_branch : M R String
  head_branch = do out ← git ("rev-parse" ∷ "--abbrev-ref" ∷ "HEAD" ∷ []); pure (trim out)

  unfoldable pub diff_of : (String → String) → Option String → String → M R String
  diff_of cap base branch =
      if str_eq branch "unborn"
      then pure ""
      else git ("diff" ∷ "--no-ext-diff" ∷ or_else base "HEAD" ∷ [])

  unfoldable pub capped_diff : (String → String) → String → List Row → String → DiffResult
  capped_diff cap branch rows diff =
      if ltb diff_cap_bytes (len diff)
      then record {
        branch = branch;
        status = rows;
        diff = cap diff;
        truncated = true;
        full_bytes = some (len diff);
      }
      else record {
        branch = branch;
        status = rows;
        diff = diff;
        truncated = false;
        full_bytes = none;
      }

  abbrev valid_base : Option String → Result (Unit {0})
  valid_base none = ok tt
  valid_base (some ref) = validate_ref ref

  -- `repoDiff(repoDir, base)`
  unfoldable pub repo_diff : (String → String) → Option String → M R DiffResult
  unfolding diff_of capped_diff head_branch
  repo_diff cap base = do
    lift (valid_base base)
    branch ← catch_with head_branch "unborn"
    porcelain ← git ("status" ∷ "--porcelain=v1" ∷ "-z" ∷ [])
    diff ← diff_of cap base branch
    pure (capped_diff cap branch (status_rows porcelain) diff)

  unfoldable pub identity : Option Author → M R (List String)
  identity (some author) =
      pure ("-c" ∷ ("user.name=" ++ author.name) ∷ "-c" ∷ ("user.email=" ++ author.email) ∷ [])
  identity none = do
    name ← catch_with (git ("config" ∷ "user.name" ∷ [])) ""
    email ← catch_with (git ("config" ∷ "user.email" ∷ [])) ""
    pure (
        if str_eq (trim name) "" || str_eq (trim email) ""
        then "-c" ∷ "user.name=herdr-web-broker" ∷ "-c" ∷ "user.email=broker@herdr.local" ∷ []
        else [])

  unfoldable commit_staged : String → Option Author → Bool → M R CommitResult
  unfolding identity head_branch
  commit_staged message author false = pure clean
  commit_staged message author true = do
    id_args ← identity author
    out ← git (append id_args ("commit" ∷ "-m" ∷ message ∷ []))
    commit ← git ("rev-parse" ∷ "HEAD" ∷ [])
    branch ← head_branch
    pure (committed (trim commit) branch (first_line (lines message)))

  unfoldable add_if : Bool → M R String
  add_if false = pure ""
  add_if true = git ("add" ∷ "-A" ∷ [])

  -- `repoCommit(repoDir, opts)`
  unfoldable pub repo_commit : CommitOptions → M R CommitResult
  unfolding commit_staged add_if
  repo_commit opts =
      if str_eq (trim opts.message) ""
      then lift (fail "bad_request" "'message' must be a non-empty string")
      else (do
        added ← add_if opts.add_all
        status ← git ("status" ∷ "--porcelain" ∷ [])
        commit_staged (trim opts.message) opts.author (any is_staged (lines status)))

  -- `repoLog(repoDir, limit)`
  unfoldable pub repo_log : (ℕ → String) → ℕ → M R (List LogEntry)
  repo_log show limit = do
    let n = if ltb limit 1 then 1 else min limit 200
    out ← catch_with (git ("log" ∷ ("-" ++ show n) ∷ "--format=%H%x1f%s%x1f%an%x1f%ar" ∷ [])) ""
    pure (map (λ line. entry_of (split 31 line)) (non_empty (lines out)))

  -- `repoPush(repoDir, opts)`
  unfoldable pub repo_push : Option String → Option String → M R Pushed
  unfolding head_branch
  repo_push remote branch = do
    to ← trimmed_or remote (pure "origin")
    lift (validate_ref to)
    pushed ← trimmed_or branch head_branch
    lift (validate_ref pushed)
    out ← git ("push" ∷ to ∷ pushed ∷ [])
    pure (record {
      remote = to;
      branch = pushed;
      detail = if str_eq (trim out) "" then "ok" else trim out;
    })

  -- `repoCheckout(repoDir, opts)`
  unfoldable pub repo_checkout : String → Bool → M R String
  unfolding head_branch
  repo_checkout ref create = do
    lift (validate_ref ref)
    out ← git (if create then "checkout" ∷ "-b" ∷ ref ∷ [] else "checkout" ∷ ref ∷ [])
    head_branch
