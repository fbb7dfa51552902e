-- ===== src/Access/Bearer.antt =====
-- src/auth.ts and `normalizeClientTokens` of src/config.ts: bearer tokens. SHA-256 and the hex codec
-- are Node's: `sha256` gives the digest's bytes, `to_hex` and `from_hex` are `digest("hex")` and
-- `Buffer.from(_, "hex")`.
pub mod Matching
use Prim.Native.String.{len, slice}
use mathlib.Core.Option
use mathlib.Core.List.{append_assoc}
use herdr_web_broker.Common.{
  ℕ, ◌≡◌, refl, ap, String, Bool, true, false, ◌&&◌, not, Option, some, none, List, [], ◌∷◌, map,
  arith, nat_eq, or_else, is_some, starts_with, if◌then◌else◌, find, length, length-append,
  get_elem?, get_elem?-length, ◌+◌, ◌++◌, any, All, Option-cases, Bool-cases, inl, inr,
}

pub record ClientToken : Type 0 where
  pub name : String
  pub token : Option String
  pub token_hash : Option String

-- `timingSafeEqual`, and the length gate before it
abbrev pub bytes_eq : List ℕ → List ℕ → Bool
bytes_eq [] [] = true
bytes_eq (a ∷ as') (b ∷ bs) = nat_eq a b && bytes_eq as' bs
bytes_eq _ _ = false

-- `tokens[idx].name`
abbrev name_at : List ClientToken → Option ℕ → Option String
name_at tokens none = none
name_at tokens (some i) = Option.map (λ t. t.name) (get_elem? tokens i)

module _ (sha256 : String → List ℕ) (to_hex : List ℕ → String) (from_hex : String → List ℕ) where
  pub hash_secret : String → String
  hash_secret secret = to_hex (sha256 secret)

  pub verify_secret : String → String → Bool
  unfolding hash_secret
  verify_secret secret expected_hash =
      bytes_eq (from_hex (hash_secret secret)) (from_hex expected_hash)

  pub digest_of : ClientToken → List ℕ
  digest_of entry = elim entry.token_hash [
    | some hash ↦ from_hex hash
    | none ↦ sha256 (or_else entry.token "")
  ]

  -- The loop of `matchIndex`, which compares every entry; `none` is the source's -1.
  match_from : List ℕ → ℕ → Option ℕ → List ClientToken → Option ℕ
  match_from presented i idx [] = idx
  match_from presented i idx (t ∷ tokens) =
      match_from presented (i + 1)
        (if bytes_eq presented (digest_of t) && not (is_some idx) then some i else idx) tokens

  match_index : Option String → List ClientToken → Option ℕ
  unfolding match_from
  match_index none tokens = none
  match_index (some header) tokens =
      if starts_with header "Bearer "
      then match_from (sha256 (slice header 7 (len header))) 0 none tokens
      else none

  pub check_bearer : Option String → List ClientToken → Bool
  unfolding match_index
  check_bearer header tokens = is_some (match_index header tokens)

  unfoldable pub match_token : Option String → List ClientToken → Option String
  unfolding match_index digest_of
  match_token header tokens = name_at tokens (match_index header tokens)

  -- One round of the loop of `normalizeClientTokens`.
  normalize_token : ClientToken → ClientToken
  unfolding hash_secret
  normalize_token t = elim t.token [
    | none ↦ t
    | some secret ↦ record t { token = none; token_hash = some (hash_secret secret) }
  ]

  -- The tokens, and whether any changed.
  pub normalize_client_tokens : List ClientToken → List ClientToken × Bool
  unfolding normalize_token
  normalize_client_tokens tokens = (map normalize_token tokens, any (λ t. is_some t.token) tokens)
