-- ===== src/Client/Upgrade/Admitted.antt =====
-- src/ws-server.ts: who is let in.
use herdr_web_broker.Common.{
  ℕ, ◌≡◌, refl, subst, ◌⊎◌, inl, inr, String, Bool, true, false, Option, some, none, List, [], ◌∷◌,
  if◌then◌else◌, or_option, In,
}
use herdr_web_broker.Access.Bearer.{ClientToken, match_token}
use herdr_web_broker.Access.Limiter.{AuthLimiter, blocked}
use herdr_web_broker.Client.Upgrade.{
  Upgrade, refuses, enrolls, accepts, first_match, matched, upgrade_events,
}

-- The name that a socket is let in under: as a child, or as a token.
abbrev pub child_name : Upgrade → Option String
child_name (enrolls name) = some name
child_name _ = none

abbrev pub token_name : Upgrade → Option String
token_name (accepts name) = some name
token_name _ = none

nothing_some : {A : Type 0} {a : A} → none ≡ some a → ⊥
nothing_some h = cc

some_injective : {A : Type 0} {a b : A} → some a ≡ some b → a ≡ b
some_injective h = cc

module _ (sha256 : String → List ℕ) (to_hex : List ℕ → String) (from_hex : String → List ℕ) where
  or_option-cases :
      (a b : Option String) (r : String) → or_option a b ≡ some r → (a ≡ some r) ⊎ (b ≡ some r)
  or_option-cases none b r h = inr h
  or_option-cases (some x) b r h = inl h

  first_match-In :
      (offered : List (Option String)) (tokens : List ClientToken) (name : String)
      → first_match sha256 to_hex from_hex offered tokens ≡ some name
      → (c : Option String) × In c offered
        × (match_token sha256 to_hex from_hex c tokens ≡ some name)
  unfolding first_match
  first_match-In [] tokens name h = absurd (nothing_some h)
  first_match-In (c ∷ rest) tokens name h = elim (or_option-cases _ _ name h) [
    | inl here ↦ (c, inl refl, here)
    | inr later ↦
        let (d, among, matches) = first_match-In rest tokens name later in (d, inr among, matches)
  ]

  matched-name :
      (o : Option String) (offered : List (Option String)) (ip : String) (now : ℕ) (l : AuthLimiter)
      (name : String)
      → token_name (matched sha256 to_hex from_hex o offered ip now l).1 ≡ some name
      → o ≡ some name
  unfolding matched
  matched-name none offered ip now l name h = absurd (nothing_some h)
  matched-name (some n) offered ip now l name h = h

  if-name :
      (b : Bool) (x y : AuthLimiter × Upgrade) (name : String)
      → token_name x.1 ≡ none
      → token_name (if b then x else y).1 ≡ some name
      → (b ≡ false) × (token_name y.1 ≡ some name)
  if-name true x y name nobody h = absurd (nothing_some (subst (λ o. o ≡ some name) nobody h))
  if-name false x y name nobody h = (refl, h)

  -- A client's socket is let in as a token only if its address is not blocked and one of the headers
  -- that it offers authenticates as that token.
  pub upgrade_events-match_token :
      (offered : List (Option String)) (tokens : List ClientToken) (ip : String) (now : ℕ)
      (l : AuthLimiter) (name : String)
      → token_name (upgrade_events sha256 to_hex from_hex offered tokens ip now l).1 ≡ some name
      → ((blocked ip now l).1 ≡ false)
        × ((c : Option String) × In c offered
            × (match_token sha256 to_hex from_hex c tokens ≡ some name))
  unfolding upgrade_events
  upgrade_events-match_token offered tokens ip now l name h =
      let asked = blocked ip now l in
      let (free, k) =
        if-name asked.1 (asked.0, refuses 429)
          (matched sha256 to_hex from_hex (first_match sha256 to_hex from_hex offered tokens)
            offered ip now asked.0)
          name refl h in
      (free, first_match-In offered tokens name (matched-name _ offered ip now asked.0 name k))
