-- ===== src/Access/Gate.antt =====
-- `handle` of src/http.ts up to the routes: who a request comes from, and whether it is let in. The limiter is
-- the state; `sha256`, `to_hex` and `from_hex` are those of Bearer.
pub mod Judged
pub mod Decided
pub mod Limited
use Prim.Native.String.{len}
use herdr_web_broker.Common.{
  ℕ, String, Bool, true, false, not, ◌&&◌, ◌||◌, Option, some, none, List, [], ◌∷◌, ltb, str_eq,
  starts_with, if◌then◌else◌,
}
use herdr_web_broker.Access.Bearer.{ClientToken, bytes_eq, match_token}
use herdr_web_broker.Access.Limiter.{AuthLimiter, record_failure, success, blocked}

-- `path` is `url.pathname` split at its slashes, without empty parts.
pub record Request : Type 0 where
  pub method : String
  pub path : List String
  pub remote : String
  pub admin_token : Option String
  pub authorization : Option String

pub data Admission : Type 0 where
  health rate_limited admin_denied admin_area unauthorized : Admission
  client : (token_name : String) → Admission

-- `parts`, without a leading `API_VERSION`.
unfoldable pub parts_of : List String → List String
parts_of [] = []
parts_of (p ∷ ps) = if str_eq p "v1" then ps else p ∷ ps

-- `routePath === "/health"`
abbrev is_health_path : List String → Bool
is_health_path (p ∷ []) = str_eq p "health"
is_health_path _ = false

abbrev pub is_health : Request → Bool
is_health r = str_eq r.method "GET" && is_health_path (parts_of r.path)

-- `parts[0] === "admin"`
abbrev starts_admin : List String → Bool
starts_admin [] = false
starts_admin (p ∷ ps) = str_eq p "admin"

abbrev pub is_admin : Request → Bool
is_admin r = starts_admin (parts_of r.path)

abbrev pub is_loopback : String → Bool
is_loopback remote =
    str_eq remote "127.0.0.1" || (str_eq remote "::1" || str_eq remote "::ffff:127.0.0.1")

-- `String(header ?? "")`
abbrev pub presented : Option String → String
presented none = ""
presented (some token) = token

-- Whether a header is an attempt: a bearer token that is not empty.
abbrev pub is_attempt : Option String → Bool
is_attempt none = false
is_attempt (some header) = starts_with header "Bearer " && ltb 7 (len header)

unfoldable pub recorded : Bool → String → ℕ → AuthLimiter → AuthLimiter
recorded attempt remote now l = if attempt then record_failure remote now l else l

unfoldable pub checked_admin : Bool → Bool → String → ℕ → AuthLimiter → AuthLimiter × Admission
unfolding recorded
checked_admin accepted attempt remote now l =
    if accepted
    then (success remote l, admin_area)
    else (recorded attempt remote now l, admin_denied)

unfoldable pub checked_client :
    Option String → Bool → String → ℕ → AuthLimiter → AuthLimiter × Admission
unfolding recorded
checked_client none attempt remote now l = (recorded attempt remote now l, unauthorized)
checked_client (some name) attempt remote now l = (success remote l, client name)

module _ (sha256 : String → List ℕ) (to_hex : List ℕ → String) (from_hex : String → List ℕ)
    (admin_secret : String) (tokens : List ClientToken) where
  unfoldable pub is_admin_token : Request → Bool
  is_admin_token r =
      is_loopback r.remote && bytes_eq (sha256 (presented r.admin_token)) (sha256 admin_secret)

  unfoldable pub checked : Request → ℕ → AuthLimiter → AuthLimiter × Admission
  unfolding checked_admin checked_client
  checked r now l =
      if is_admin r
      then checked_admin (is_admin_token r) (not (str_eq (presented r.admin_token) "")) r.remote now
          l
      else checked_client (match_token sha256 to_hex from_hex r.authorization tokens)
          (is_attempt r.authorization) r.remote now l

  unfoldable pub gate : Request → ℕ → AuthLimiter → AuthLimiter × Admission
  unfolding checked
  gate r now l =
      let (pruned, is_blocked) = blocked r.remote now l in
      if is_health r
      then (l, health)
      else if is_blocked
      then (pruned, rate_limited)
      else checked r now pruned
