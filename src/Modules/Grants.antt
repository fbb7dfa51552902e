-- ===== src/Modules/Grants.antt =====
-- `resolveGrant` of src/capabilities.ts.
use herdr_web_broker.Common.{
  ◌≡◌, ◌⊎◌, ◌↔◌, inr, String, Bool, true, not, ◌&&◌, List, [], ◌∷◌, ◌++◌, any, filter, str_eq,
  eq_iff, arith, In, In-filter,
}

abbrev pub capabilities : List String
capabilities = "git.read" ∷ "git.write" ∷ "files" ∷ "workspaces" ∷ "agents" ∷ "rpc" ∷ "events" ∷ []

-- `list.includes(name)`, `set.has(name)`
abbrev pub has : List String → String → Bool
has names name = any (λ n. str_eq n name) names

pub record GrantResult : Type 0 where
  pub granted : List String
  pub unknown : List String

-- `[...new Set(names)]`: the first of each.
distinct : List String → List String
distinct [] = []
distinct (n ∷ names) = n ∷ filter (λ m. not (str_eq m n)) (distinct names)

pub resolve_grant : List String → List String → GrantResult
unfolding distinct
resolve_grant declared configured = record {
  granted = filter (λ cap. has declared cap && has configured cap) capabilities;
  unknown = distinct (filter (λ n. not (has capabilities n)) (declared ++ configured));
}

has-In : (names : List String) (name : String) → has names name ≡ true ↔ In name names
has-In [] name = (λ h. ground (arith, h), λ h. absurd h)
has-In (n ∷ names) name = ground (arith, has-In names name, eq_iff n name)

In-append : (name : String) (xs ys : List String) → In name (xs ++ ys) ↔ (In name xs ⊎ In name ys)
In-append name [] ys = (λ h. inr h, λ h. ground (arith, h))
In-append name (x ∷ xs) ys = ground (arith, In-append name xs ys)

In-distinct : (name : String) (names : List String) → In name (distinct names) ↔ In name names
unfolding distinct
In-distinct name [] = (λ h. h, λ h. h)
In-distinct name (n ∷ names) = ground (
  arith,
  In-distinct name names,
  In-filter (λ m. not (str_eq m n)) name (distinct names),
  eq_iff name n,
  eq_iff n name,
)

module _ (caps declared configured : List String) (name : String) where
  In-granted :
      In name (filter (λ cap. has declared cap && has configured cap) caps)
      ↔ (In name caps × (In name declared × In name configured))
  In-granted = ground (
    arith,
    In-filter (λ cap. has declared cap && has configured cap) name caps,
    has-In declared name,
    has-In configured name,
  )

  In-unknown :
      In name (distinct (filter (λ n. not (has caps n)) (declared ++ configured)))
      ↔ ((In name declared ⊎ In name configured) × ¬ In name caps)
  In-unknown = ground (
    arith,
    In-distinct name (filter (λ n. not (has caps n)) (declared ++ configured)),
    In-filter (λ n. not (has caps n)) name (declared ++ configured),
    In-append name declared configured,
    has-In caps name,
  )

-- A module is granted exactly the capabilities that it declares and the operator configured, and every
-- other name of either side is reported, whatever the order and however often it is written.
pub resolve_grant-intersection :
    (declared configured : List String) (name : String)
    → let g = resolve_grant declared configured in
      (In name g.granted ↔ (In name capabilities × (In name declared × In name configured)))
      × (In name g.unknown ↔ ((In name declared ⊎ In name configured) × ¬ In name capabilities))
unfolding resolve_grant
resolve_grant-intersection declared configured name = (
  In-granted capabilities declared configured name,
  In-unknown capabilities declared configured name,
)
