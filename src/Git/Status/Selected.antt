-- ===== src/Git/Status/Selected.antt =====
-- src/git-exec.ts: what a discard selects.
use herdr_web_broker.Common.{
  ◌≡◌, String, Bool, true, false, not, ◌↔◌, ◌⊎◌, inl, inr, List, [], ◌∷◌, filter, map, arith, In,
  In-filter, if◌then◌else◌, Bool-cases,
}
use herdr_web_broker.Common.Text.{sort, place, is_before}
use herdr_web_broker.Git.Status.{
  Change, changes_in, in_scope, is_untracked, Scope, discard_selection,
}

In-place : (f s : String) (ts : List String) → In f (place s ts) ↔ ((s ≡ f) ⊎ In f ts)
unfolding place
In-place f s [] = (λ h. h, λ h. h)
In-place f s (t ∷ ts) = elim (Bool-cases (is_before t s)) [
  | inl before ↦ rw before (ground (arith, In-place f s ts))
  | inr after ↦ rw after (λ h. h, λ h. h)
]

pub In-sort : (f : String) (ts : List String) → In f (sort ts) ↔ In f ts
unfolding sort
In-sort f [] = (λ h. h, λ h. h)
In-sort f (t ∷ ts) = ground (arith, In-place f t (sort ts), In-sort f ts)

abbrev pub paths_of : List Change → List String
paths_of = map (λ c. c.path)

-- A file is selected exactly if the status lists it and it lies in the scope; an untracked file only if
-- untracked files are asked for, and then among the untracked ones.
pub discard_selection-In :
    (porcelain : String) (scope : Scope) (f : String)
    → let s = discard_selection porcelain scope in
      let changes = changes_in porcelain in
      (In f s.tracked ↔ (
        In f (paths_of (filter (λ c. not (is_untracked c)) changes))
        × (in_scope scope.paths f ≡ true)))
      × (In f s.untracked ↔ (
          (scope.untracked ≡ true)
          × In f (paths_of (filter is_untracked changes))
          × (in_scope scope.paths f ≡ true)))
unfolding discard_selection
discard_selection-In porcelain scope f =
    let changes = changes_in porcelain in
    let tracked = paths_of (filter (λ c. not (is_untracked c)) changes) in
    let untracked = paths_of (filter is_untracked changes) in
    (chosen tracked, by_flag scope.untracked untracked)
  where
    chosen :
        (fs : List String)
        → In f (sort (filter (in_scope scope.paths) fs))
          ↔ (In f fs × (in_scope scope.paths f ≡ true))
    chosen fs =
        ground (
          arith,
          In-sort f (filter (in_scope scope.paths) fs),
          In-filter (in_scope scope.paths) f fs,
        )

    by_flag :
        (flag : Bool) (fs : List String)
        → In f (if flag then sort (filter (in_scope scope.paths) fs) else [])
          ↔ ((flag ≡ true) × In f fs × (in_scope scope.paths f ≡ true))
    by_flag true fs = ground (arith, chosen fs)
    by_flag false fs = (λ h. absurd h, λ h. cc (h.0))
