-- ===== src/Access/Bearer/Matching.antt =====
-- Which token a header authenticates as, and what normalising the stored tokens keeps.
use Prim.Native.String.{len, slice}
use mathlib.Core.List.{append_assoc}
use mathlib.Core.Option
use herdr_web_broker.Common.{
  ℕ, ◌+◌, ◌≡◌, refl, sym, ap, ◌∙◌, ◌⊎◌, String, Option, some, none, List, [], ◌∷◌, ◌++◌, map, arith,
  is_some, or_else, starts_with, if◌then◌else◌, find, length, length-append, get_elem?-length, All,
  Bool-cases, inl, inr,
}
use herdr_web_broker.Access.Bearer.{
  ClientToken, bytes_eq, name_at, digest_of, match_from, check_bearer, match_token, hash_secret,
  normalize_token, normalize_client_tokens,
}

module _ (sha256 : String → List ℕ) (to_hex : List ℕ → String) (from_hex : String → List ℕ) where
  abbrev digest : ClientToken → List ℕ
  digest = digest_of sha256 to_hex from_hex

  -- The first entry whose stored digest is that of the secret that the header presents.
  pub matching : Option String → List ClientToken → Option ClientToken
  matching none tokens = none
  matching (some header) tokens =
      if starts_with header "Bearer "
      then find (λ t. bytes_eq (sha256 (slice header 7 (len header))) (digest t)) tokens
      else none

  match_from-some :
      (presented : List ℕ) (i j : ℕ) (tokens : List ClientToken)
      → match_from sha256 to_hex from_hex presented i (some j) tokens ≡ some j
  unfolding match_from
  match_from-some presented i j [] = refl
  match_from-some presented i j (t ∷ tokens) =
      ground (arith, match_from-some presented (i + 1) j tokens)

  name_at-match_from :
      (presented : List ℕ) (before tokens : List ClientToken)
      → name_at
          (before ++ tokens)
          (match_from sha256 to_hex from_hex presented (length before) none tokens)
        ≡ Option.map (λ t. t.name) (find (λ t. bytes_eq presented (digest t)) tokens)
  unfolding match_from
  name_at-match_from presented before [] = refl
  name_at-match_from presented before (t ∷ tokens) =
      let next = name_at-match_from presented (before ++ t ∷ []) tokens in
      let shifted = rw (append_assoc, length-append) at next in
      elim (Bool-cases (bytes_eq presented (digest t))) [
        | inl hit ↦
            rw (hit, match_from-some presented (length before + 1) (length before) tokens)
              (rw (get_elem?-length before t tokens))
        | inr miss ↦ rw miss shifted
      ]

  is_some-match_from :
      (presented : List ℕ) (i : ℕ) (tokens : List ClientToken)
      → is_some (match_from sha256 to_hex from_hex presented i none tokens)
        ≡ is_some (find (λ t. bytes_eq presented (digest t)) tokens)
  unfolding match_from
  is_some-match_from presented i [] = refl
  is_some-match_from presented i (t ∷ tokens) = elim (Bool-cases (bytes_eq presented (digest t))) [
    | inl hit ↦ rw (hit, match_from-some presented (i + 1) i tokens)
    | inr miss ↦ rw miss (is_some-match_from presented (i + 1) tokens)
  ]

  -- A header authenticates as a token exactly if it presents, behind "Bearer ", a secret whose digest
  -- some entry stores, and then as the first such entry; `check_bearer` accepts the same headers.
  pub match_token-matching :
      (header : Option String) (tokens : List ClientToken)
      → (match_token sha256 to_hex from_hex header tokens
          ≡ Option.map (λ t. t.name) (matching header tokens))
        × (check_bearer sha256 to_hex from_hex header tokens ≡ is_some (matching header tokens))
  unfolding match_token check_bearer matching
  match_token-matching none tokens = (refl, refl)
  match_token-matching (some header) tokens = elim (Bool-cases (starts_with header "Bearer ")) [
    | inl bearer ↦ rw bearer (
        let presented = sha256 (slice header 7 (len header)) in
        (name_at-match_from presented [] tokens, is_some-match_from presented 0 tokens))
    | inr other ↦ rw other (refl, refl)
  ]

  -- An entry is stored in one form: as plaintext or hashed, not both.
  abbrev pub IsSingleForm : ClientToken → Type 0
  IsSingleForm t = (t.token ≡ none) ⊎ (t.token_hash ≡ none)

  abbrev normal : ClientToken → ClientToken
  normal = normalize_token sha256 to_hex from_hex

  normal_keeps :
      ((secret : String) → from_hex (to_hex (sha256 secret)) ≡ sha256 secret)
      → (t : ClientToken) → IsSingleForm t
      → (digest (normal t) ≡ digest t) × ((normal t).name ≡ t.name) × ((normal t).token ≡ none)
  unfolding normalize_token hash_secret digest_of
  normal_keeps decodes t single =
      (ground (arith, decodes (or_else t.token "")), ground arith, ground arith)

  find-normal :
      ((secret : String) → from_hex (to_hex (sha256 secret)) ≡ sha256 secret)
      → (presented : List ℕ) (tokens : List ClientToken) → All IsSingleForm tokens
      → Option.map (λ t. t.name) (find (λ t. bytes_eq presented (digest t)) (map normal tokens))
        ≡ Option.map (λ t. t.name) (find (λ t. bytes_eq presented (digest t)) tokens)
  find-normal decodes presented [] h = refl
  find-normal decodes presented (t ∷ tokens) (single, h) =
      let (same, named, _) = normal_keeps decodes t single in
      rw same (elim (Bool-cases (bytes_eq presented (digest t))) [
        | inl hit ↦ rw hit (ap some named)
        | inr miss ↦ rw miss (find-normal decodes presented tokens h)
      ])

  matching-normal :
      ((secret : String) → from_hex (to_hex (sha256 secret)) ≡ sha256 secret)
      → (header : Option String) (tokens : List ClientToken) → All IsSingleForm tokens
      → Option.map (λ t. t.name) (matching header (map normal tokens))
        ≡ Option.map (λ t. t.name) (matching header tokens)
  unfolding matching
  matching-normal decodes none tokens h = refl
  matching-normal decodes (some header) tokens h =
      elim (Bool-cases (starts_with header "Bearer ")) [
        | inl bearer ↦
            rw bearer (find-normal decodes (sha256 (slice header 7 (len header))) tokens h)
        | inr other ↦ rw other
      ]

  no_plaintext :
      ((secret : String) → from_hex (to_hex (sha256 secret)) ≡ sha256 secret)
      → (tokens : List ClientToken) → All IsSingleForm tokens
      → All (λ t. t.token ≡ none) (map normal tokens)
  no_plaintext decodes [] h = tt
  no_plaintext decodes (t ∷ tokens) (single, h) =
      ((normal_keeps decodes t single).2, no_plaintext decodes tokens h)

  -- Normalising the tokens at boot changes for no header which token it authenticates as, and leaves
  -- no plaintext behind, where hex decodes the digests that it encoded and no entry held both forms.
  pub match_token-normalize :
      ((secret : String) → from_hex (to_hex (sha256 secret)) ≡ sha256 secret)
      → (header : Option String) (tokens : List ClientToken) → All IsSingleForm tokens
      → let stored = (normalize_client_tokens sha256 to_hex from_hex tokens).0 in
        (match_token sha256 to_hex from_hex header stored
          ≡ match_token sha256 to_hex from_hex header tokens)
        × All (λ t. t.token ≡ none) stored
  unfolding normalize_client_tokens
  match_token-normalize decodes header tokens h = (
    (match_token-matching header (map normal tokens)).0
        ∙ matching-normal decodes header tokens h
        ∙ sym (match_token-matching header tokens).0,
    no_plaintext decodes tokens h,
  )
