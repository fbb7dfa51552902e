-- ===== src/Git/Status.antt =====
-- The output of `git status --porcelain=v1 -z`, as `repoDiff` and `discardSelection` of src/git-exec.ts read
-- it.
pub mod Selected
pub mod Read
use Prim.Native.String as Text
use Prim.Native.String.{String, ◌++◌}
use herdr_web_broker.Common.{
  ℕ, Bool, true, false, not, ◌&&◌, ◌||◌, Option, some, none, List, [], ◌∷◌, any, filter, map,
  str_eq, starts_with, if◌then◌else◌,
}
use herdr_web_broker.Common.Text.{trim, split, non_empty, sort, first, past}

-- An entry: the two letters of its state, and its path.
pub record Change : Type 0 where
  pub xy : String
  pub path : String

-- A rename or a copy is followed by its original path.
abbrev pub has_origin : String → Bool
has_origin xy = starts_with xy "R" || starts_with xy "C"

-- The loop, and whether the next token is an original path, which is skipped.
unfoldable pub changes_from : Bool → List String → List Change
changes_from skips [] = []
changes_from skips (token ∷ tokens) =
    let xy = first 2 token in
    let rest = changes_from (not skips && has_origin xy) tokens in
    if skips then rest else record { xy = xy; path = past 3 token } ∷ rest

-- The tokens end in a zero.
unfoldable pub changes_in : String → List Change
unfolding changes_from
changes_in porcelain = changes_from false (non_empty (split 0 porcelain))

-- `xy === "??" ? "?" : (xy.trim()[0] ?? "M")`
unfoldable pub state_of : String → String
state_of xy =
    if str_eq xy "??"
    then "?"
    else (let letter = first 1 (trim xy) in if str_eq letter "" then "M" else letter)

pub record Row : Type 0 where
  pub path : String
  pub state : String

-- `status` of `repoDiff`
unfoldable pub status_rows : String → List Row
unfolding changes_in state_of
status_rows porcelain =
    map (λ c. record { path = c.path; state = state_of c.xy }) (changes_in porcelain)

pub record Scope : Type 0 where
  pub paths : Option (List String)
  pub untracked : Bool

unfoldable ends_in_slash : String → Bool
ends_in_slash Text.[] = false
ends_in_slash (Text.◌∷◌ c Text.[]) = str_eq (Text.◌∷◌ c "") "/"
ends_in_slash (Text.◌∷◌ c s) = ends_in_slash s

-- `p.replace(/\/?$/, "/")`
unfoldable pub as_directory : String → String
unfolding ends_in_slash
as_directory p = if ends_in_slash p then p else p ++ "/"

unfoldable pub in_scope : Option (List String) → String → Bool
unfolding as_directory
in_scope none file = true
in_scope (some paths) file = any (λ p. str_eq file p || starts_with file (as_directory p)) paths

pub record Selection : Type 0 where
  pub tracked : List String
  pub untracked : List String

abbrev pub is_untracked : Change → Bool
is_untracked c = str_eq c.xy "??"

-- `discardSelection(porcelain, opts)`
unfoldable pub discard_selection : String → Scope → Selection
unfolding changes_in in_scope
discard_selection porcelain scope =
    let changes = changes_in porcelain in
    let tracked = map (λ c. c.path) (filter (λ c. not (is_untracked c)) changes) in
    let untracked = map (λ c. c.path) (filter is_untracked changes) in
    record {
      tracked = sort (filter (in_scope scope.paths) tracked);
      untracked = if scope.untracked then sort (filter (in_scope scope.paths) untracked) else [];
    }
