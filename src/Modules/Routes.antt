-- ===== src/Modules/Routes.antt =====
-- `matchModuleRoute` of src/module-routes.ts. A handler is known by its name.
pub mod Matches
use Prim.Native.Char.{Char, code}
use Prim.Native.String as Text
use Prim.Native.String.{String}
use mathlib.Core.Option
use herdr_web_broker.Common.{
  or_option, ℕ, Bool, true, false, not, ◌&&◌, Option, some, none, List, [], ◌∷◌, find, filter,
  length, nat_eq, str_eq, is_some, if◌then◌else◌,
}
use herdr_web_broker.Common.Dict.{Dict, insert}

pub record Route : Type 0 where
  pub method : String
  pub path : String
  pub handler : String

pub record LoadedModule : Type 0 where
  pub id : String
  pub error : Option String
  pub routes : List Route

pub record RouteMatch : Type 0 where
  pub mod_id : String
  pub route : Route
  pub params : Dict String

abbrev push_char : Char → List String → List String
push_char c [] = Text.◌∷◌ c Text.[] ∷ []
push_char c (s ∷ segments) = Text.◌∷◌ c s ∷ segments

-- `path.split("/")`
split : String → List String
split Text.[] = "" ∷ []
split (Text.◌∷◌ c s) =
    let rest = split s in if nat_eq (code c) 47 then "" ∷ rest else push_char c rest

-- `.filter(Boolean)`
unfoldable pub segments : String → List String
unfolding split
segments path = filter (λ s. not (str_eq s "")) (split path)

-- `want.startsWith(":") ? want.slice(1) : undefined`
unfoldable pub param_name : String → Option String
param_name Text.[] = none
param_name (Text.◌∷◌ c s) = if nat_eq (code c) 58 then some s else none

-- One round of the loop over the segments.
match_segment : Option String → String → String → Dict String → Option (Dict String)
match_segment (some name) want given params = some (insert name given params)
match_segment none want given params = if str_eq want given then some params else none

abbrev pub when_some : {A B : Type 0} → Option A → (A → Option B) → Option B
when_some none f = none
when_some (some a) f = f a

unfoldable pub match_segments : List String → List String → Dict String → Option (Dict String)
unfolding match_segment
match_segments [] [] params = some params
match_segments [] (given ∷ rest) params = none
match_segments (want ∷ wants) [] params = none
match_segments (want ∷ wants) (given ∷ rest) params =
    when_some (match_segment (param_name want) want given params) (match_segments wants rest)

-- The loop over a module's routes.
match_routes : String → String → List String → List Route → Option RouteMatch
match_routes id method rest [] = none
match_routes id method rest (route ∷ routes) =
    let later = match_routes id method rest routes in
    if str_eq route.method method
    then or_option
        (Option.map (λ params. record { mod_id = id; route = route; params = params })
          (match_segments (segments route.path) rest []))
        later
    else later

match_module : Option LoadedModule → String → List String → Option RouteMatch
unfolding match_routes
match_module none method rest = none
match_module (some m) method rest =
    if is_some m.error then none else match_routes m.id method rest m.routes

unfoldable pub match_module_route : List LoadedModule → String → List String → Option RouteMatch
unfolding match_module
match_module_route loaded method [] = none
match_module_route loaded method (part ∷ []) = none
match_module_route loaded method (part ∷ id ∷ rest) =
    if str_eq part "modules"
    then match_module (find (λ m. str_eq m.id id) loaded) method rest
    else none
