-- ===== src/Git/Discard/Confirmed.antt =====
-- `repoDiscard` of src/git-exec.ts: nothing is touched that was not shown.
use Prim.Native.String.{String}
use herdr_web_broker.Common.{
  ◌≡◌, refl, false, Option, some, none, List, [], ◌∷◌, sym, subst, opt_eq, str_eq, Bool-cases, inl,
  inr,
}
use herdr_web_broker.Common.Text.{trim}
use herdr_web_broker.State.Resumable.{truthy}
use herdr_web_broker.Ops.{Result, ok, throws}
use herdr_web_broker.Git.{M, Git, after}
use herdr_web_broker.Git.Status.{Selection, discard_selection}
use herdr_web_broker.Git.Discard.{
  DiscardOptions, DiscardResult, would_discard, files_of, confirm_for, check_scope, decide,
  repo_discard,
}

abbrev pub head_command : List String
head_command = "rev-parse" ∷ "HEAD" ∷ []

abbrev pub status_command : List String
status_command = "status" ∷ "--porcelain=v1" ∷ "-z" ∷ []

module _ {R A B : Type 0} (r : R) (f : A → M R B) where
  -- A step that leaves the repository as it is, and then only such steps.
  pub after-kept :
      (p : R × Result A) → p.0 ≡ r → ((a : A) → p.1 ≡ ok a → (f a r).0 ≡ r) → (after p f).0 ≡ r
  after-kept (x, ok a) same next = subst (λ y. (f a y).0 ≡ r) (sym same) (next a refl)
  after-kept (x, throws e) same next = same

  pub after-ok :
      (p : R × Result A) {b : B}
      → p.0 ≡ r
      → (after p f).1 ≡ ok b
      → (a : A) × (p.1 ≡ ok a) × ((f a r).1 ≡ ok b)
  after-ok (x, ok a) {b} same h = (a, refl, subst (λ y. (f a y).1 ≡ ok b) same h)
  after-ok (x, throws e) same h = absurd (cc h)

module _ {R : Type 0} (git : Git R) (digest : String → String)
    (reads_head : (r : R) → (git head_command r).0 ≡ r)
    (reads_status : (r : R) → (git status_command r).0 ≡ r) where
  -- What a preview of a repository shows: the files, and the text that confirms them.
  abbrev pub shown : DiscardOptions → R → Result DiscardResult
  shown opts r = (repo_discard git digest (record opts { confirm = none }) r).1

  -- The state that the confirmation stands for.
  abbrev selected : DiscardOptions → String → Selection
  selected opts porcelain =
      discard_selection porcelain (record { paths = opts.paths; untracked = opts.untracked })

  abbrev confirms : DiscardOptions → String → String → String
  confirms opts head porcelain = confirm_for digest (trim head) (files_of (selected opts porcelain))

  read_as : (o : Result String) (a b : String) → o ≡ ok a → o ≡ ok b → a ≡ b
  read_as o a b p q = cc

  shows_confirm :
      (files files' : List String) (c c' : String)
      → (let a : Result DiscardResult = ok (would_discard files c) in a)
        ≡ ok (would_discard files' c')
      → c ≡ c'
  shows_confirm files files' c c' h = cc

  preview-confirms :
      (opts : DiscardOptions) (files : List String) (confirm head porcelain : String) (r : R)
      → (git head_command r).1 ≡ ok head
      → (git status_command r).1 ≡ ok porcelain
      → shown opts r ≡ ok (would_discard files confirm)
      → confirm ≡ confirms opts head porcelain
  unfolding repo_discard decide
  preview-confirms opts files confirm head porcelain r is_head is_status preview =
      let (_, _, h1) = after-ok r _ (r, check_scope opts.all opts.paths) refl preview in
      let (head', here, h2) = after-ok r _ (git head_command r) (reads_head r) h1 in
      let (porcelain', there, h3) = after-ok r _ (git status_command r) (reads_status r) h2 in
      sym (
        rw (read_as _ head head' is_head here, read_as _ porcelain porcelain' is_status there)
          (shows_confirm (files_of (selected opts porcelain')) files _ confirm h3))

  decide-unconfirmed :
      (confirm : String) (s : Selection) (given : Option String) (r : R)
      → opt_eq given (some confirm) ≡ false
      → (decide git confirm s (truthy given) r).0 ≡ r
  unfolding decide
  decide-unconfirmed confirm s none r differs = refl
  decide-unconfirmed confirm s (some given) r differs = elim (Bool-cases (str_eq given "")) [
    | inl empty ↦ rw empty refl
    | inr full ↦ rw (full, differs) refl
  ]

  -- Whatever is asked to be discarded, a call without the text that the preview shows of the repository
  -- as it is now leaves the repository as it is, where the two commands that the preview reads leave it
  -- so.
  pub repo_discard-unconfirmed :
      (opts : DiscardOptions) (files : List String) (confirm : String) (r : R)
      → shown opts r ≡ ok (would_discard files confirm)
      → opt_eq opts.confirm (some confirm) ≡ false
      → (repo_discard git digest opts r).0 ≡ r
  unfolding repo_discard
  repo_discard-unconfirmed opts files confirm r preview differs =
      after-kept r _ (r, check_scope opts.all opts.paths) refl
        (λ _ _. after-kept r _ (git head_command r) (reads_head r) (λ head is_head.
          after-kept r _ (git status_command r) (reads_status r) (λ porcelain is_status.
            let same =
              preview-confirms opts files confirm head porcelain r is_head is_status preview in
            decide-unconfirmed (confirms opts head porcelain) (selected opts porcelain) opts.confirm
              r (subst (λ c. opt_eq opts.confirm (some c) ≡ false) same differs))))
