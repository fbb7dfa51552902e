-- ===== src/Git/Tests.antt =====
-- Repositories of a few commands, and the theorems about the operations on them.
use herdr_web_broker.Common.{
  ℕ, ◌≡◌, refl, String, Bool, true, false, not, ◌||◌, Option, some, none, List, [], ◌∷◌, map, All,
  opt_eq, if◌then◌else◌, suc,
}
use herdr_web_broker.Common.Text.{trim, trim_start, trim_end, split, sort, place, first, past}
use herdr_web_broker.Ops.{ok, fail}
use herdr_web_broker.Git.{Git, validate_ref, are_ref_chars}
use herdr_web_broker.Git.Status.{discard_selection, changes_in, changes_from, in_scope}
use herdr_web_broker.Git.Status.Read.{
  Entry, IsWritten, written, change_of, lacks_zero, changes_in-written,
}
use herdr_web_broker.Git.Verbs.Options.{logged, AreSafe, repo_push-AreSafe}
use herdr_web_broker.Git.Verbs.{repo_push}
use herdr_web_broker.Git.Pull.{
  PullOptions, conflicted, repo_pull, try_or_undo, undo, unmerged_files,
}
use herdr_web_broker.Git.Pull.Undone.{Explains, repo_pull-Explains}
use herdr_web_broker.Git.Pull.Undone as Undone
use herdr_web_broker.Git.Discard.{
  DiscardOptions, would_discard, repo_discard, check_scope, confirm_for, joined, decide,
}
use herdr_web_broker.Git.Discard.Confirmed.{shown, repo_discard-unconfirmed}

abbrev entries : List Entry
entries =
    record { x = "R"; y = "M"; path = "new.ts"; origin = some "old.ts" }
    ∷ record { x = "?"; y = "?"; path = "notes.md"; origin = none }
    ∷ record { x = "C"; y = " "; path = "b.ts"; origin = some "a.ts" }
    ∷ []

entries-IsWritten : All IsWritten entries
unfolding lacks_zero
entries-IsWritten =
    ((refl, (refl, refl), refl), ((refl, tt, refl), ((refl, (refl, refl), refl), tt)))

changes_in-written_example : changes_in (written entries) ≡ map change_of entries
changes_in-written_example = changes_in-written entries entries-IsWritten (refl, (refl, (refl, tt)))

-- A rename in the worktree alone: its original path is read as one more change.
misread :
    changes_in (written (record { x = " "; y = "R"; path = "new.ts"; origin = some "old.ts" } ∷ []))
    ≡ record { xy = " R"; path = "new.ts" } ∷ record { xy = "ol"; path = ".ts" } ∷ []
unfolding changes_in written split changes_from first past
misread = refl

abbrev head_of : List String → Option String
head_of [] = none
head_of (c ∷ args) = some c

abbrev aborts : List String → Bool
aborts [] = false
aborts (c ∷ args) = opt_eq (head_of args) (some "--abort")

-- A repository that counts the commands which change it.
abbrev counting : Git ℕ
counting command n =
    if opt_eq (some "rev-parse") (head_of command)
    then (n, ok "c0ffee\n")
    else if opt_eq (some "status") (head_of command)
    then (n, ok " M a.ts\0")
    else (suc n, ok "")

abbrev digest : String → String
digest s = s

abbrev everything : DiscardOptions
everything = record { paths = none; all = true; untracked = false; confirm = some "stale" }

abbrev confirmation : String
confirmation = "c0ffee\0a.ts"

previewed :
    shown counting digest (λ r. refl) (λ r. refl) everything 0
    ≡ ok (would_discard ("a.ts" ∷ []) confirmation)
unfolding repo_discard check_scope confirm_for joined decide discard_selection changes_in
    changes_from in_scope trim trim_start trim_end split sort place first past
previewed = refl

repo_discard-unconfirmed_example : (repo_discard counting digest everything 0).0 ≡ 0
repo_discard-unconfirmed_example =
    repo_discard-unconfirmed counting digest (λ r. refl) (λ r. refl) everything ("a.ts" ∷ [])
      confirmation 0 previewed refl

-- A repository in which every merge conflicts; its state is whether a merge is in progress.
abbrev conflicting : Git Bool
conflicting command merging =
    if opt_eq (some "fetch") (head_of command)
      || (opt_eq (some "rev-parse") (head_of command) || opt_eq (some "diff") (head_of command))
    then (merging, if merging then ok "a.ts\n" else ok "main\n")
    else (not (aborts command), if aborts command then ok "" else fail "git_error" "conflict")

abbrev pull : PullOptions
pull = record { remote = none; branch = some "main"; rebase = false }

conflicts : (repo_pull conflicting pull false).1 ≡ ok (conflicted ("a.ts" ∷ []))
unfolding repo_pull try_or_undo undo unmerged_files validate_ref are_ref_chars trim trim_start
    trim_end split
conflicts = refl

repo_pull-Explains_example :
    Explains false
      (repo_pull (Undone.logging conflicting) pull (false, [])).0.1
      (repo_pull (Undone.logging conflicting) pull (false, [])).1
repo_pull-Explains_example = repo_pull-Explains conflicting pull false

repo_push-AreSafe_example :
    AreSafe counting (repo_push (logged counting) (some "--force") none (0, [])).0
repo_push-AreSafe_example = repo_push-AreSafe counting (some "--force") none 0
