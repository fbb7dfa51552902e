-- ===== src/Modules/Routes/Matches.antt =====
-- src/module-routes.ts: what a matched route says of the request.
use mathlib.Core.Option
use herdr_web_broker.Common.{
  ◌≡◌, refl, subst, ◌⊎◌, inl, inr, String, true, false, Option, some, none, List, [], ◌∷◌, find,
  or_option, str_eq, eq_iff, is_some, In, Bool-cases,
}
use herdr_web_broker.Common.Dict.{Dict, insert}
use herdr_web_broker.Modules.Routes.{
  Route, LoadedModule, RouteMatch, segments, param_name, match_segment, when_some, match_segments,
  match_routes, match_module, match_module_route,
}

-- A path matches segment by segment: a parameter takes any, any other segment only itself.
abbrev pub IsMatch : List String → List String → Type 0
IsMatch [] [] = Unit
IsMatch [] (given ∷ rest) = ⊥
IsMatch (want ∷ wants) [] = ⊥
IsMatch (want ∷ wants) (given ∷ rest) =
    ((is_some (param_name want) ≡ true) ⊎ (want ≡ given)) × IsMatch wants rest

nothing_found : {A : Type 0} {a : A} → none ≡ some a → ⊥
nothing_found h = cc

some_injective : {A : Type 0} {a b : A} → some a ≡ some b → a ≡ b
some_injective h = cc

segment-IsMatch :
    (o : Option String) (want given : String) (params result : Dict String) (P : Type 0)
    (next : Dict String → Option (Dict String))
    → ((p : Dict String) → next p ≡ some result → P)
    → when_some (match_segment o want given params) next ≡ some result
    → ((is_some o ≡ true) ⊎ (want ≡ given)) × P
unfolding match_segment
segment-IsMatch (some name) want given params result P next later h =
    (inl refl, later (insert name given params) h)
segment-IsMatch none want given params result P next later h =
    elim (Bool-cases (str_eq want given)) [
      | inl same ↦ (inr ((eq_iff want given).0 same), later params (rw same at h))
      | inr differs ↦ absurd (nothing_found (rw differs at h))
    ]

match_segments-IsMatch :
    (wants rest : List String) (params result : Dict String)
    → match_segments wants rest params ≡ some result
    → IsMatch wants rest
unfolding match_segments
match_segments-IsMatch [] [] params result h = tt
match_segments-IsMatch [] (given ∷ rest) params result h = absurd (nothing_found h)
match_segments-IsMatch (want ∷ wants) [] params result h = absurd (nothing_found h)
match_segments-IsMatch (want ∷ wants) (given ∷ rest) params result h =
    segment-IsMatch (param_name want) want given params result (IsMatch wants rest)
      (match_segments wants rest) (λ p. match_segments-IsMatch wants rest p result) h

-- The match is a route of the module, for the method, whose path the request matches.
abbrev pub IsRouteOf : List Route → String → List String → RouteMatch → Type 0
IsRouteOf routes method rest m =
    In m.route routes × (m.route.method ≡ method) × IsMatch (segments m.route.path) rest

or_option-cases :
    {A : Type 0} (a b : Option A) (r : A) → or_option a b ≡ some r → (a ≡ some r) ⊎ (b ≡ some r)
or_option-cases none b r h = inr h
or_option-cases (some x) b r h = inl h

matched-IsRouteOf :
    (id method : String) (rest : List String) (route : Route) (routes : List Route)
    (o : Option (Dict String)) (m : RouteMatch)
    → match_segments (segments route.path) rest [] ≡ o
    → str_eq route.method method ≡ true
    → Option.map (λ params. record { mod_id = id; route = route; params = params }) o ≡ some m
    → (m.mod_id ≡ id) × IsRouteOf (route ∷ routes) method rest m
matched-IsRouteOf id method rest route routes none m e same h = absurd (nothing_found h)
matched-IsRouteOf id method rest route routes (some params) m e same h =
    let here = some_injective h in
    subst (λ x. (x.mod_id ≡ id) × IsRouteOf (route ∷ routes) method rest x) here
      (
        refl,
        (
          inl refl,
          (eq_iff route.method method).0 same,
          match_segments-IsMatch (segments route.path) rest [] params e,
        ),
      )

match_routes-IsRouteOf :
    (id method : String) (rest : List String) (routes : List Route) (m : RouteMatch)
    → match_routes id method rest routes ≡ some m
    → (m.mod_id ≡ id) × IsRouteOf routes method rest m
unfolding match_routes
match_routes-IsRouteOf id method rest [] m h = absurd (nothing_found h)
match_routes-IsRouteOf id method rest (route ∷ routes) m h =
    let later : match_routes id method rest routes ≡ some m
        → (m.mod_id ≡ id) × IsRouteOf (route ∷ routes) method rest m =
      λ k.
        let found = match_routes-IsRouteOf id method rest routes m k in
        (found.0, (inr found.1.0, found.1.1, found.1.2)) in
    elim (Bool-cases (str_eq route.method method)) [
      | inl same ↦ elim (or_option-cases _ _ m (rw same at h)) [
        | inl here ↦ matched-IsRouteOf id method rest route routes _ m refl same here
        | inr k ↦ later k
      ]
      | inr differs ↦ later (rw differs at h)
    ]

match_module-IsRouteOf :
    (o : Option LoadedModule) (method : String) (rest : List String) (m : RouteMatch)
    → match_module o method rest ≡ some m
    → (owner : LoadedModule) × (o ≡ some owner)
      × (is_some owner.error ≡ false)
      × (m.mod_id ≡ owner.id)
      × IsRouteOf owner.routes method rest m
unfolding match_module
match_module-IsRouteOf none method rest m h = absurd (nothing_found h)
match_module-IsRouteOf (some owner) method rest m h = elim (Bool-cases (is_some owner.error)) [
  | inl failed ↦ absurd (nothing_found (rw failed at h))
  | inr healthy ↦
      let found = match_routes-IsRouteOf owner.id method rest owner.routes m (rw healthy at h) in
      (owner, refl, healthy, found.0, found.1)
]

-- A request that a module answers is under /modules and the id of the first module of that id, which
-- loaded without an error, and is answered by one of its routes for the method whose path it matches
-- segment by segment, to the same number of segments.
pub match_module_route-IsRouteOf :
    (loaded : List LoadedModule) (method part id : String) (rest : List String) (m : RouteMatch)
    → match_module_route loaded method (part ∷ id ∷ rest) ≡ some m
    → (part ≡ "modules")
      × ((owner : LoadedModule) × (find (λ x. str_eq x.id id) loaded ≡ some owner)
          × (is_some owner.error ≡ false)
          × (m.mod_id ≡ owner.id)
          × IsRouteOf owner.routes method rest m)
unfolding match_module_route
match_module_route-IsRouteOf loaded method part id rest m h =
    elim (Bool-cases (str_eq part "modules")) [
      | inl same ↦
          ((eq_iff part "modules").0 same, match_module-IsRouteOf _ method rest m (rw same at h))
      | inr differs ↦ absurd (nothing_found (rw differs at h))
    ]
