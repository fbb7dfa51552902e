-- ===== src/Agents/Reconcile.antt =====
-- `classifySession` of src/reconcile.ts.
use herdr_web_broker.Common.{
  ◌≡◌, ◌⊎◌, ◌↔◌, String, Bool, true, not, List, [], ◌∷◌, any, filter, str_eq, eq_iff, arith, In,
  In-filter, is_some,
}
use herdr_web_broker.Common.Dict.{Dict, lookup, keys}
use herdr_web_broker.State.{WorkspaceMeta}

pub record Classification : Type 0 where
  pub adopt : List String
  pub forget : List String
  pub orphans : List String

-- `set.has(id)`
abbrev pub has : List String → String → Bool
has ids id = any (λ i. str_eq i id) ids

pub classify_session : Dict WorkspaceMeta → List String → Classification
classify_session known live = record {
  adopt = filter (has live) (keys known);
  forget = filter (λ id. not (has live id)) (keys known);
  orphans = filter (λ id. not (is_some (lookup id known))) live;
}

has-In : (ids : List String) (id : String) → has ids id ≡ true ↔ In id ids
has-In [] id = (λ h. ground (arith, h), λ h. absurd h)
has-In (i ∷ ids) id = ground (arith, has-In ids id, eq_iff i id)

lookup-In :
    (id : String) (known : Dict WorkspaceMeta)
    → is_some (lookup id known) ≡ true ↔ In id (keys known)
unfolding lookup
lookup-In id [] = (λ h. ground (arith, h), λ h. absurd h)
lookup-In id ((i, m) ∷ known) = ground (arith, lookup-In id known, eq_iff i id)

-- Every indexed workspace is adopted or forgotten, by whether it is live; every live one is adopted or
-- an orphan, by whether it is indexed; and an orphan is never adopted or forgotten.
pub classify_session-partition :
    (known : Dict WorkspaceMeta) (live : List String) (id : String)
    → let c = classify_session known live in
      (In id c.adopt ↔ (In id (keys known) × In id live))
      × ((In id c.adopt ⊎ In id c.forget) ↔ In id (keys known))
      × ((In id c.adopt ⊎ In id c.orphans) ↔ (In id live))
      × ¬ (In id c.orphans × (In id c.adopt ⊎ In id c.forget))
unfolding classify_session
classify_session-partition known live id =
    let ids = keys known in
    let adopted = In-filter (has live) id ids in
    let forgotten = In-filter (λ i. not (has live i)) id ids in
    let orphaned = In-filter (λ i. not (is_some (lookup i known))) id live in
    let is_live = has-In live id in
    let is_known = lookup-In id known in
    (
      ground (arith, adopted, is_live),
      ground (arith, adopted, forgotten, is_live),
      ground (arith, adopted, orphaned, is_live, is_known),
      λ both. ground (arith, adopted, forgotten, orphaned, is_known, both),
    )
