-- ===== src/Git/Discard.antt =====
-- `repoDiscard` of src/git-exec.ts. `digest` stands for the first 16 digits of the SHA-256 of a text in
-- hexadecimal.
pub mod Confirmed
use Prim.Native.String.{String, ◌++◌}
use herdr_web_broker.Common.{
  Bool, true, false, not, ◌&&◌, ◌||◌, Option, some, none, List, [], ◌∷◌, any, filter, str_eq,
  starts_with, if◌then◌else◌,
}
use mathlib.Core.List.{◌++◌ as append}
use herdr_web_broker.Common.Text.{trim, split, non_empty, sort}
use herdr_web_broker.State.Resumable.{truthy}
use herdr_web_broker.Ops.{Result, ok, throws, fail}
use herdr_web_broker.Git.{M, Git, pure, after, ◌>>=◌, ◌>>◌, lift}
use herdr_web_broker.Git.Verbs.{lines}
use herdr_web_broker.Git.Status.{Scope, Selection, discard_selection}

pub record DiscardOptions : Type 0 where
  pub paths : Option (List String)
  pub all : Bool
  pub untracked : Bool
  pub confirm : Option String

pub data DiscardResult : Type 0 where
  would_discard : (files : List String) → (confirm : String) → DiscardResult
  discarded : (files : List String) → DiscardResult

abbrev pub contains : String → List String → Bool
contains s = any (λ t. str_eq t s)

abbrev pub is_plain_path : String → Bool
is_plain_path p = not (starts_with p "-" || (starts_with p "/" || contains ".." (split 47 p)))

abbrev pub all_plain : List String → Bool
all_plain [] = true
all_plain (p ∷ ps) = is_plain_path p && all_plain ps

-- `!opts.all && (!opts.paths || opts.paths.length === 0)` is refused, and every path has to be plain.
unfoldable pub check_scope : Bool → Option (List String) → Result (Unit {0})
check_scope false none = fail "bad_request" "there is no implicit discard-everything"
check_scope false (some []) = fail "bad_request" "there is no implicit discard-everything"
check_scope true none = ok tt
check_scope all (some paths) =
    if all_plain paths
    then ok tt
    else fail "bad_request" "'paths' must be plain repo-relative paths"

-- `files.join("\0")`
unfoldable pub joined : List String → String
joined [] = ""
joined (f ∷ []) = f
joined (f ∷ g ∷ files) = f ++ ("\0" ++ joined (g ∷ files))

abbrev pub files_of : Selection → List String
files_of s = sort (append s.tracked s.untracked)

unfoldable pub confirm_for : (String → String) → String → List String → String
unfolding joined
confirm_for digest head files = digest (head ++ ("\0" ++ joined files))

module _ {R : Type 0} (git : Git R) where
  unfoldable pub run_if : List String → List String → M R String
  run_if command [] = pure ""
  run_if command (f ∷ files) = git (append command (f ∷ files))

  -- Files of HEAD are restored, and files that are only staged are unstaged.
  unfoldable pub restore : List String → M R String
  unfolding run_if
  restore [] = pure ""
  restore (f ∷ tracked) = do
    listed ← git ("ls-tree" ∷ "-r" ∷ "--name-only" ∷ "HEAD" ∷ [])
    let in_head = λ (file : String). contains file (non_empty (lines listed))
    restored ← run_if ("checkout" ∷ "HEAD" ∷ "--" ∷ []) (filter in_head (f ∷ tracked))
    run_if ("rm" ∷ "--cached" ∷ "-q" ∷ "--" ∷ [])
        (filter (λ file. not (in_head file)) (f ∷ tracked))

  unfoldable pub execute : Selection → M R DiscardResult
  unfolding restore run_if
  execute s = do
    restored ← restore s.tracked
    cleaned ← run_if ("clean" ∷ "-f" ∷ "--" ∷ []) s.untracked
    pure (discarded (files_of s))

  unfoldable pub decide : String → Selection → Option String → M R DiscardResult
  unfolding execute
  decide confirm s none = pure (would_discard (files_of s) confirm)
  decide confirm s (some given) =
      if str_eq given confirm
      then execute s
      else lift (fail "stale_confirm" "the tree changed since the preview")

  -- `repoDiscard(repoDir, opts)`
  unfoldable pub repo_discard : (String → String) → DiscardOptions → M R DiscardResult
  unfolding decide
  repo_discard digest opts = do
    lift (check_scope opts.all opts.paths)
    head ← git ("rev-parse" ∷ "HEAD" ∷ [])
    porcelain ← git ("status" ∷ "--porcelain=v1" ∷ "-z" ∷ [])
    let s = discard_selection porcelain (record { paths = opts.paths; untracked = opts.untracked })
    decide (confirm_for digest (trim head) (files_of s)) s (truthy opts.confirm)
