-- ===== src/Git/Verbs/Options.antt =====
-- src/git-exec.ts: no remote or branch of a caller reaches git as an option.
use Prim.Native.String.{String}
use herdr_web_broker.Common.{
  ◌≡◌, refl, Bool, true, false, not, ◌||◌, Option, List, [], ◌∷◌, ◌++◌, all, str_eq, starts_with,
  if◌then◌else◌, arith, All, All-append,
}
use herdr_web_broker.Ops.{ok}
use herdr_web_broker.Git.{Git, pure, validate_ref}
use herdr_web_broker.Git.Keeps.{after-keeps, trimmed_or-keeps}
use herdr_web_broker.Git.Verbs.{trimmed_or, head_branch, repo_push}

-- The git binary, with the commands that it got.
abbrev pub logged : {R : Type 0} → Git R → Git (R × List (List String))
logged git command state =
    let done = git command state.0 in ((done.0, state.1 ++ command ∷ []), done.1)

-- A command that goes over the network names its remote and its branch, and no option.
abbrev pub has_no_option : List String → Bool
has_no_option [] = true
has_no_option (verb ∷ args) =
    if str_eq verb "push" || str_eq verb "fetch"
    then all (λ a. not (starts_with a "-")) args
    else true

validate_ref-plain :
    (ref : String) {u : Unit {0}} → validate_ref ref ≡ ok u → starts_with ref "-" ≡ false
unfolding validate_ref
validate_ref-plain ref h = ground (arith, h)

module _ {R : Type 0} (git : Git R) where
  abbrev pub AreSafe : R × List (List String) → Type 0
  AreSafe state = All (λ c. has_no_option c ≡ true) state.1

  logged-AreSafe :
      (command : List String) (state : R × List (List String))
      → has_no_option command ≡ true
      → AreSafe state
      → AreSafe (logged git command state).0
  logged-AreSafe command state plain h =
      All-append (λ c. has_no_option c ≡ true) state.1 (command ∷ []) h (plain, tt)

  network-plain :
      (verb remote branch : String)
      → starts_with remote "-" ≡ false
      → starts_with branch "-" ≡ false
      → has_no_option (verb ∷ remote ∷ branch ∷ []) ≡ true
  network-plain verb remote branch p q = ground (arith, p, q)

  head_branch-AreSafe :
      (state : R × List (List String)) → AreSafe state → AreSafe (head_branch (logged git) state).0
  unfolding head_branch
  head_branch-AreSafe state h =
      after-keeps AreSafe _ (logged git ("rev-parse" ∷ "--abbrev-ref" ∷ "HEAD" ∷ []) state)
        (logged-AreSafe _ state refl h) (λ a x e k. k)

  -- Whatever the caller names, and whatever git answers, a push runs no command over the network in
  -- which the remote or the branch stands as an option.
  pub repo_push-AreSafe :
      (remote branch : Option String) (r : R)
      → AreSafe (repo_push (logged git) remote branch (r, [])).0
  unfolding repo_push
  repo_push-AreSafe remote branch r =
      after-keeps AreSafe _ (trimmed_or remote (pure "origin") (r, []))
        (trimmed_or-keeps AreSafe remote _ (r, []) tt tt)
        (λ to s1 _ h1.
          after-keeps AreSafe _ (s1, validate_ref to) h1
            (λ _ s2 to_is h2.
              after-keeps AreSafe _ (trimmed_or branch (head_branch (logged git)) s2)
                (trimmed_or-keeps AreSafe branch _ s2 h2 (head_branch-AreSafe s2 h2))
                (λ pushed s3 _ h3.
                  after-keeps AreSafe _ (s3, validate_ref pushed) h3
                    (λ _ s4 pushed_is h4.
                      after-keeps AreSafe _ (logged git ("push" ∷ to ∷ pushed ∷ []) s4)
                        (logged-AreSafe _ s4
                          (network-plain "push" to pushed (validate_ref-plain to to_is)
                            (validate_ref-plain pushed pushed_is))
                          h4)
                        (λ a x e k. k)))))
