-- ===== src/Modules/Tests.antt =====
-- Grants and routes, and the theorems about them at concrete inputs.
use herdr_web_broker.Common.{◌≡◌, refl, String, false, some, none, [], ◌∷◌, find, str_eq, is_some}
use herdr_web_broker.Common.Dict.{insert}
use herdr_web_broker.Modules.Routes.{
  Route, LoadedModule, RouteMatch, match_module_route, segments, match_segments, param_name,
}
use herdr_web_broker.Modules.Routes.Matches.{IsRouteOf, match_module_route-IsRouteOf}

abbrev prefix : String
prefix = "modules"

abbrev item : Route
item = record { method = "GET"; path = "/items/:id"; handler = "item" }

abbrev notes : LoadedModule
notes = record { id = "notes"; error = none; routes = item ∷ [] }

abbrev found : RouteMatch
found = record { mod_id = "notes"; route = item; params = ("id", "7") ∷ [] }

match_module_route-IsRouteOf_example :
    (prefix ≡ "modules")
    × ((owner : LoadedModule) × (find (λ x. str_eq x.id "notes") (notes ∷ []) ≡ some owner)
        × (is_some owner.error ≡ false)
        × (found.mod_id ≡ owner.id)
        × IsRouteOf owner.routes "GET" ("items" ∷ "7" ∷ []) found)
unfolding match_module_route segments match_segments param_name insert
match_module_route-IsRouteOf_example =
    match_module_route-IsRouteOf (notes ∷ []) "GET" prefix "notes" ("items" ∷ "7" ∷ []) found refl
