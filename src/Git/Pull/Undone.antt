-- ===== src/Git/Pull/Undone.antt =====
-- `repoPull` of src/git-exec.ts: the commands that it ran, and what it answers.
use Prim.Native.String.{String}
use herdr_web_broker.Common.{
  ◌≡◌, refl, Bool, true, false, not, ◌&&◌, ◌||◌, List, [], ◌∷◌, str_eq, length, ltb,
}
use herdr_web_broker.Common.Text.{trim, split, non_empty}
use herdr_web_broker.Ops.{Thrown, Result, ok, throws}
use herdr_web_broker.Git.{M, Git, pure, after, rescued, validate_ref}
use herdr_web_broker.Git.Verbs.{lines, trimmed_or, head_branch}
use herdr_web_broker.Git.Keeps.{after-keeps, trimmed_or-keeps}
use herdr_web_broker.Git.Pull.{
  PullOptions, PullResult, pulled, conflicted, merge_command, abort_command, unmerged_files, undo,
  try_or_undo, repo_pull,
}

-- The commands that were run, the last one first, with what git answered.
abbrev pub Log : Type 0
Log = List (List String × Result String)

abbrev noted : {R : Type 0} → List String → Log → R × Result String → (R × Log) × Result String
noted command log (r, answer) = ((r, (command, answer) ∷ log), answer)

-- Git, with a log.
abbrev pub logging : {R : Type 0} → Git R → Git (R × Log)
logging git command (r, log) = noted command log (git command r)

abbrev starts : String → List String → Bool
starts word [] = false
starts word (c ∷ args) = str_eq c word

-- The last command is no merge or rebase that failed, and no listing that shows conflicts.
abbrev pub is_settled : Log → Bool
is_settled [] = true
is_settled ((command, ok out) ∷ log) =
    not (starts "diff" command && ltb 0 (length (non_empty (lines out))))
is_settled ((command, throws e) ∷ log) = not (starts "merge" command || starts "rebase" command)

-- What a pull may answer after the commands of a log.
pub data Explains (rebase : Bool) : Log → Result PullResult → Type 0 where
  merged :
      (remote branch fetched out head : String) (rest : Log)
      → Explains rebase
          (("rev-parse" ∷ "HEAD" ∷ [], ok head)
            ∷ (merge_command rebase, ok out)
            ∷ ("fetch" ∷ remote ∷ branch ∷ [], ok fetched)
            ∷ rest)
          (ok (pulled (trim head) branch))
  undone :
      (remote branch fetched out file : String) (files : List String) (e : Thrown)
      (answer : Result String) (rest : Log)
      → non_empty (lines out) ≡ file ∷ files
      → Explains rebase
          ((abort_command rebase, answer)
            ∷ ("diff" ∷ "--name-only" ∷ "--diff-filter=U" ∷ [], ok out)
            ∷ (merge_command rebase, throws e)
            ∷ ("fetch" ∷ remote ∷ branch ∷ [], ok fetched)
            ∷ rest)
          (ok (conflicted (file ∷ files)))
  failed : (log : Log) (e : Thrown) → is_settled log ≡ true → Explains rebase log (throws e)

module _ {R : Type 0} (git : Git R) (rebase : Bool) where
  abbrev IsExplained : (R × Log) × Result PullResult → Type 0
  IsExplained p = Explains rebase p.0.1 p.1

  after-IsExplained :
      {A : Type 0} (f : A → M (R × Log) PullResult) (p : (R × Log) × Result A)
      → is_settled p.0.1 ≡ true
      → ((a : A) (x : R × Log) → is_settled x.1 ≡ true → IsExplained (f a x))
      → IsExplained (after p f)
  after-IsExplained f (x, ok a) settled next = next a x settled
  after-IsExplained f (x, throws e) settled next = failed x.1 e settled

  noted-is_settled :
      (command : List String) (log : Log) (p : R × Result String)
      → starts "diff" command ≡ false
      → starts "merge" command || starts "rebase" command ≡ false
      → is_settled (noted command log p).0.1 ≡ true
  noted-is_settled command log (r, ok out) no_diff no_merge = rw no_diff
  noted-is_settled command log (r, throws e) no_diff no_merge = rw no_merge

  module _ (remote branch fetched : String) (rest : Log) where
    abbrev log_fetched : Log
    log_fetched = ("fetch" ∷ remote ∷ branch ∷ [], ok fetched) ∷ rest

    commit-IsExplained :
        (out : String) (p : R × Result String)
        → IsExplained (
            after
              (noted ("rev-parse" ∷ "HEAD" ∷ []) ((merge_command rebase, ok out) ∷ log_fetched) p)
              (λ commit. pure (pulled (trim commit) branch)))
    commit-IsExplained out (r, ok head) = merged remote branch fetched out head rest
    commit-IsExplained out (r, throws e) = failed _ e refl

    abort-IsExplained :
        (e : Thrown) (out file : String) (files : List String) (p : R × Result String)
        → non_empty (lines out) ≡ file ∷ files
        → IsExplained (
            after
              (rescued
                (noted
                  (abort_command rebase)
                  (("diff" ∷ "--name-only" ∷ "--diff-filter=U" ∷ [], ok out)
                    ∷ (merge_command rebase, throws e)
                    ∷ log_fetched)
                  p)
                "")
              (λ _. pure (conflicted (file ∷ files))))
    abort-IsExplained e out file files (r, ok a) listed =
        undone remote branch fetched out file files e (ok a) rest listed
    abort-IsExplained e out file files (r, throws t) listed =
        undone remote branch fetched out file files e (throws t) rest listed

    undo-IsExplained :
        (e : Thrown) (out : String) (files : List String) (r : R)
        → non_empty (lines out) ≡ files
        → IsExplained (
            undo (logging git) e (abort_command rebase) conflicted files (
              r,
              ("diff" ∷ "--name-only" ∷ "--diff-filter=U" ∷ [], ok out)
                  ∷ (merge_command rebase, throws e)
                  ∷ log_fetched,
            ))
    unfolding undo
    undo-IsExplained e out [] r listed = failed _ e (rw listed)
    undo-IsExplained e out (file ∷ files) r listed =
        abort-IsExplained e out file files (git (abort_command rebase) r) listed

    listing-IsExplained :
        (e : Thrown) (p : R × Result String)
        → IsExplained (
            after
              (after
                (rescued
                  (noted
                    ("diff" ∷ "--name-only" ∷ "--diff-filter=U" ∷ [])
                    ((merge_command rebase, throws e) ∷ log_fetched)
                    p)
                  "")
                (λ out. pure (non_empty (lines out))))
              (undo (logging git) e (abort_command rebase) conflicted))
    unfolding undo split
    listing-IsExplained e (r, ok out) = undo-IsExplained e out (non_empty (lines out)) r refl
    listing-IsExplained e (r, throws t) = failed _ e refl

    merge-IsExplained :
        (p : R × Result String)
        → IsExplained (
            try_or_undo
              (logging git)
              (noted (merge_command rebase) log_fetched p)
              (abort_command rebase)
              conflicted
              (λ x.
                after
                  (logging git ("rev-parse" ∷ "HEAD" ∷ []) x)
                  (λ commit. pure (pulled (trim commit) branch))))
    unfolding try_or_undo unmerged_files
    merge-IsExplained (r, ok out) = commit-IsExplained out (git ("rev-parse" ∷ "HEAD" ∷ []) r)
    merge-IsExplained (r, throws e) =
        listing-IsExplained e (git ("diff" ∷ "--name-only" ∷ "--diff-filter=U" ∷ []) r)

  fetch-IsExplained :
      (remote branch : String) (log : Log) (p : R × Result String)
      → IsExplained (
          after (noted ("fetch" ∷ remote ∷ branch ∷ []) log p) (λ _ x.
            try_or_undo
              (logging git)
              (logging git (merge_command rebase) x)
              (abort_command rebase)
              conflicted
              (λ y.
                after
                  (logging git ("rev-parse" ∷ "HEAD" ∷ []) y)
                  (λ commit. pure (pulled (trim commit) branch)))))
  fetch-IsExplained remote branch log (r, ok out) =
      merge-IsExplained remote branch out log (git (merge_command rebase) r)
  fetch-IsExplained remote branch log (r, throws e) = failed _ e refl

module _ {R : Type 0} (git : Git R) where
  abbrev IsSettled : R × Log → Type 0
  IsSettled x = is_settled x.1 ≡ true

  head_branch-IsSettled : (x : R × Log) → IsSettled (head_branch (logging git) x).0
  unfolding head_branch
  head_branch-IsSettled (r, log) =
      after-keeps IsSettled _ (logging git ("rev-parse" ∷ "--abbrev-ref" ∷ "HEAD" ∷ []) (r, log))
        (noted-is_settled git false ("rev-parse" ∷ "--abbrev-ref" ∷ "HEAD" ∷ []) log
          (git ("rev-parse" ∷ "--abbrev-ref" ∷ "HEAD" ∷ []) r) refl refl)
        (λ a x e k. k)

  -- A pull that answers a commit has fetched the branch, merged or rebased onto it without an error,
  -- and read HEAD last; one that answers conflicts has run the merge, which failed, then the listing,
  -- which shows exactly those files, at least one, and last the abort of that merge. One that fails
  -- has neither a failed merge nor a listing that shows conflicts as its last command.
  pub repo_pull-Explains :
      (opts : PullOptions) (r : R)
      → Explains opts.rebase
          (repo_pull (logging git) opts (r, [])).0.1
          (repo_pull (logging git) opts (r, [])).1
  unfolding repo_pull
  repo_pull-Explains opts r =
      after-IsExplained git opts.rebase _ (trimmed_or opts.remote (pure "origin") (r, []))
        (trimmed_or-keeps IsSettled opts.remote (pure "origin") (r, []) refl refl)
        (λ remote x1 h1.
          after-IsExplained git opts.rebase _ (x1, validate_ref remote) h1
            (λ _ x2 h2.
              after-IsExplained git opts.rebase _
                (trimmed_or opts.branch (head_branch (logging git)) x2)
                (trimmed_or-keeps IsSettled opts.branch _ x2 h2 (head_branch-IsSettled x2))
                (λ branch x3 h3.
                  after-IsExplained git opts.rebase _ (x3, validate_ref branch) h3
                    (λ _ x4 _.
                      fetch-IsExplained git opts.rebase remote branch x4.1
                        (git ("fetch" ∷ remote ∷ branch ∷ []) x4.0)))))
