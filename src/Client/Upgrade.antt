-- ===== src/Client/Upgrade.antt =====
-- `attachUpgradeHandling` of src/ws-server.ts: which sockets are let in. The digests are parameters, as
-- for the bearer tokens; `protocols` is the header "sec-websocket-protocol", split at commas and trimmed.
pub mod Admitted
use Prim.Native.String.{◌++◌ as text_append, count}
use herdr_web_broker.Common.{
  ℕ, ◌≡◌, refl, ◌⊎◌, inl, inr, String, Bool, true, false, not, ◌&&◌, ◌||◌, Option, some, none, List,
  [], ◌∷◌, ◌++◌, map, filter, any, ltb, str_eq, if◌then◌else◌, or_option, In, Bool-cases,
  Option-cases,
}
use herdr_web_broker.Common.Dict.{Dict, lookup, insert, remove, keys}
use herdr_web_broker.Access.Bearer.{ClientToken, verify_secret, match_token}
use herdr_web_broker.Access.Limiter.{AuthLimiter, blocked, record_failure, success}

-- `ChildrenStore` of src/state.ts: the digest of each child's secret, by its name.
abbrev pub Children : Type 0
Children = Dict String

unfoldable pub set_child : String → String → Children → Children
set_child name secret_hash children = insert name secret_hash children

unfoldable pub delete_child : String → Children → Children × Bool
delete_child name children = go (lookup name children)
  where
    go : Option String → Children × Bool
    go none = (children, false)
    go (some secret_hash) = (remove name children, true)

-- What an upgrade comes to: a status, or a socket of a child or of a token.
pub data Upgrade : Type 0 where
  refuses : (status : ℕ) → Upgrade
  enrolls : (name : String) → Upgrade
  accepts : (token_name : String) → Upgrade

abbrev bearer : String → Option String
bearer token = some (text_append "Bearer " token)

abbrev query_candidate : Option String → List (Option String)
query_candidate none = []
query_candidate (some token) = bearer token ∷ []

-- The header, the offered protocols, and the parameter "token", in this order.
unfoldable pub candidates : Option String → List String → Option String → List (Option String)
candidates authorization protocols query_token =
    authorization
    ∷ (map bearer (filter (λ p. not (str_eq p "") && not (str_eq p "bearer")) protocols)
        ++ query_candidate query_token)

abbrev pub is_offered : Option String → Bool
is_offered none = false
is_offered (some c) = ltb 7 (count c)

module _ (sha256 : String → List ℕ) (to_hex : List ℕ → String) (from_hex : String → List ℕ) where
  enroll_found : Option String → String → String → Upgrade
  enroll_found none name secret = refuses 401
  enroll_found (some secret_hash) name secret =
      if verify_secret sha256 to_hex from_hex secret secret_hash then enrolls name else refuses 401

  -- On /enroll; an empty name is refused.
  unfoldable pub upgrade_enroll : Children → String → String → Upgrade
  unfolding enroll_found
  upgrade_enroll children name secret =
      if str_eq name "" then refuses 401 else enroll_found (lookup name children) name secret

  -- The loop over the candidates, which ends at the first that matches.
  unfoldable pub first_match : List (Option String) → List ClientToken → Option String
  first_match [] tokens = none
  first_match (c ∷ rest) tokens =
      or_option (match_token sha256 to_hex from_hex c tokens) (first_match rest tokens)

  unfoldable pub matched :
      Option String → List (Option String) → String → ℕ → AuthLimiter → AuthLimiter × Upgrade
  matched none offered ip now l =
      (if any is_offered offered then record_failure ip now l else l, refuses 401)
  matched (some name) offered ip now l = (success ip l, accepts name)

  -- On /events: a blocked address is refused before any token is compared.
  unfoldable pub upgrade_events :
      List (Option String) → List ClientToken → String → ℕ → AuthLimiter → AuthLimiter × Upgrade
  unfolding matched
  upgrade_events offered tokens ip now l =
      let (asked, is_blocked) = blocked ip now l in
      if is_blocked
      then (asked, refuses 429)
      else matched (first_match offered tokens) offered ip now asked
