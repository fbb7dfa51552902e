-- ===== src/Git/Pull.antt =====
-- `repoPull`, `repoStash`, `repoStashList` and `repoStashPop` of src/git-exec.ts.
pub mod Undone
use Prim.Native.String.{String}
use herdr_web_broker.Common.{
  ℕ, Bool, true, false, Option, some, none, List, [], ◌∷◌, map, length, ltb, str_eq, get_elem?,
  or_else, if◌then◌else◌,
}
use mathlib.Core.List.{◌++◌ as append}
use herdr_web_broker.Common.Text.{trim, split, non_empty}
use herdr_web_broker.Ops.{Thrown, Result, ok, throws}
use herdr_web_broker.Git.{M, Git, pure, after, ◌>>=◌, ◌>>◌, lift, catch_with, validate_ref}
use herdr_web_broker.Git.Verbs.{lines, trimmed_or, head_branch}

pub data PullResult : Type 0 where
  pulled : (commit branch : String) → PullResult
  conflicted : (files : List String) → PullResult

pub record PullOptions : Type 0 where
  pub remote : Option String
  pub branch : Option String
  pub rebase : Bool

pub record StashEntry : Type 0 where
  pub ref : Option String
  pub subject : String

pub data Stashed : Type 0 where
  stashed clean : Stashed

pub data Popped : Type 0 where
  popped : Popped
  kept : (conflicts : List String) → Popped

abbrev pub merge_command : Bool → List String
merge_command true = "rebase" ∷ "FETCH_HEAD" ∷ []
merge_command false = "merge" ∷ "--no-edit" ∷ "FETCH_HEAD" ∷ []

abbrev pub abort_command : Bool → List String
abort_command true = "rebase" ∷ "--abort" ∷ []
abort_command false = "merge" ∷ "--abort" ∷ []

abbrev pub entry_of : List String → StashEntry
entry_of fields = record { ref = get_elem? fields 0; subject = or_else (get_elem? fields 1) "" }

abbrev pub message_args : Option String → List String
message_args none = []
message_args (some m) = if str_eq (trim m) "" then [] else "-m" ∷ trim m ∷ []

module _ {R : Type 0} (git : Git R) where
  -- `unmergedFiles(repoDir)`
  unfoldable pub unmerged_files : M R (List String)
  unmerged_files = do
    out ← catch_with (git ("diff" ∷ "--name-only" ∷ "--diff-filter=U" ∷ [])) ""
    pure (non_empty (lines out))

  -- A failed merge, rebase or pop: with conflicts it is undone, and any other error is handed on.
  unfoldable pub undo :
      {A : Type 0} → Thrown → List String → (List String → A) → List String → M R A
  undo e command result [] = lift (throws e)
  undo e command result (file ∷ files) = do
    out ← catch_with (git command) ""
    pure (result (file ∷ files))

  unfoldable pub try_or_undo :
      {A : Type 0} → R × Result String → List String → (List String → A) → M R A → R × Result A
  unfolding undo unmerged_files
  try_or_undo (r, ok out) command result next = next r
  try_or_undo (r, throws e) command result next =
      (unmerged_files >>= λ files. undo e command result files) r

  -- `repoPull(repoDir, opts)`
  unfoldable pub repo_pull : PullOptions → M R PullResult
  unfolding try_or_undo head_branch
  repo_pull opts = do
    remote ← trimmed_or opts.remote (pure "origin")
    lift (validate_ref remote)
    branch ← trimmed_or opts.branch (head_branch git)
    lift (validate_ref branch)
    fetched ← git ("fetch" ∷ remote ∷ branch ∷ [])
    (λ r.
        try_or_undo (git (merge_command opts.rebase) r) (abort_command opts.rebase) conflicted
          (do commit ← git ("rev-parse" ∷ "HEAD" ∷ []); pure (pulled (trim commit) branch)))

  -- `repoStashList(repoDir)`
  unfoldable pub repo_stash_list : M R (List StashEntry)
  repo_stash_list = do
    out ← catch_with (git ("stash" ∷ "list" ∷ "--format=%gd%x1f%gs" ∷ [])) ""
    pure (map (λ line. entry_of (split 31 line)) (non_empty (lines out)))

  -- `repoStash(repoDir, opts)`
  unfoldable pub repo_stash : Option String → Bool → M R Stashed
  unfolding repo_stash_list
  repo_stash message untracked = do
    before ← repo_stash_list
    out ← git (
        append ("stash" ∷ "push" ∷ [])
          (append (if untracked then "-u" ∷ [] else []) (message_args message)))
    now ← repo_stash_list
    pure (if ltb (length before) (length now) then stashed else clean)

  -- `repoStashPop(repoDir)`
  unfoldable pub repo_stash_pop : M R Popped
  unfolding try_or_undo
  repo_stash_pop r =
      try_or_undo (git ("stash" ∷ "pop" ∷ []) r) ("reset" ∷ "--merge" ∷ []) kept (pure popped)
