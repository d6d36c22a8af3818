-- ===== src/Travel/Route.antt =====
-- `BuildRouteFromTags` of internal/travelroutes/service.go.
pub mod Best
pub mod Choice
pub mod Legs
pub mod Whole
pub mod Tests
use route_planner.Prelude.{
  String, Bool, Option, none, some, List, [], ◌∷◌, ◌++◌, any, if◌then◌else◌,
}
use route_planner.Prelude.Text.{str_eq}
use route_planner.Errors.{sentinel, no_places_found}
use route_planner.Effects.{Eff, pure, throw, crash, lift, ◌>>=◌}
use route_planner.Models.{Location, Float64, Place}
use route_planner.Json
use route_planner.Json.{Json, Fields, JsonCodec, items, set_field}
use route_planner.Travel.{RouteService}

-- `slices.ContainsFunc(usedPlaces, …)`
abbrev pub is_used : List Place → Place → Bool
is_used used p = any (λ u. str_eq u.id p.id) used

-- The inner loop: the first place that is not used yet.
pub first_unused : List Place → List Place → Option Place
first_unused used [] = none
first_unused used (p ∷ ps) = if is_used used p then first_unused used ps else some p

-- The chosen place, and the places used after the choice; with none unused it is the first place,
-- which is not used a second time.
pub choose_place : List Place → Place → List Place → Place × List Place
unfolding first_unused
choose_place used first rest = elim (first_unused used (first ∷ rest)) [
  | some p ↦ (p, used ++ p ∷ [])
  | none ↦ (first, used)
]

module _ {W : Type 0} where
  -- One round of the first loop, before the rounds that are left.
  abbrev visit :
      (Location → List Place → Eff W (List Place)) → List Place → List Place → Eff W (List Place)
  visit rest used [] = throw (sentinel no_places_found)
  visit rest used (p ∷ ps) =
      let (chosen, used') = choose_place used p ps in rest chosen.location used'

module _ {W : Type 0} (s : RouteService W) where
  -- The first loop: a place for each group of tags.
  pub choose_places : Float64 → List (List String) → Location → List Place → Eff W (List Place)
  unfolding choose_place
  choose_places radius [] prev_loc used = pure used
  choose_places radius (tags ∷ groups) prev_loc used =
      s.repo.find_optimal_places tags prev_loc radius >>= visit (choose_places radius groups) used

module _ {W : Type 0} where
  -- The two assignments to the decoded map, which panic if it is nil.
  abbrev annotate : Place → Option Fields → Eff W Json
  annotate place none = crash
  annotate place (some fields) = pure (
      Json.object (
        set_field "description" (Json.text place.description)
          (set_field "name" (Json.text place.name) fields)))

module _ {W : Type 0} (codec : JsonCodec) (s : RouteService W) where
  -- The second loop: a leg to each used place, after those in `full_route`.
  pub build_legs : List Json → Location → List Place → Eff W (List Json)
  build_legs full_route prev_loc [] = pure full_route
  build_legs full_route prev_loc (place ∷ places) = do
    route ← s.route_api.build_route prev_loc place.location
    decoded ← lift (codec.unmarshal_map route)
    segment ← annotate place decoded
    build_legs (full_route ++ segment ∷ []) place.location places

  -- A nil slice is marshalled as `null`.
  abbrev slice_json : List Json → Json
  slice_json [] = Json.null
  slice_json (j ∷ js) = Json.array (items (j ∷ js))

  abbrev pub feature_collection : List Json → Json
  feature_collection full_route = Json.object (
      Json.field "type" (Json.text "FeatureCollection")
        (Json.field "segments" (slice_json full_route) Json.end))

  pub build_route_from_tags : List (List String) → Location → Float64 → Eff W String
  unfolding choose_places build_legs
  build_route_from_tags all_tags start_coords radius = do
    used_places ← choose_places s radius all_tags start_coords []
    full_route ← build_legs [] start_coords used_places
    lift (codec.marshal (feature_collection full_route))
