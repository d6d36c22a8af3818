-- ===== src/Travel/Handlers/Laws.antt =====
-- The answers of the route endpoints.
use route_planner.Prelude.{◌≡◌, ◌⊎◌, inl, inr, String, some, List, [], ◌∷◌, All, Bool-cases}
use route_planner.Prelude.Text.{Text}
use route_planner.Errors.{GoError, sentinel, no_places_found, extraction_failed, errors_is, message}
use route_planner.Errors.Response.{Answer, plain, status, not_found, bad_request_err}
use route_planner.Effects.{ok}
use route_planner.Effects.Laws.{respond-eq-ok}
use route_planner.Models.{Location, Float64}
use route_planner.Json.{JsonCodec}
use route_planner.Travel.{RouteService}
use route_planner.Travel.Tags.{get_allowed_tags}
use route_planner.Travel.Tags.Laws.{analyze_request_none}
use route_planner.Travel.Route.{build_route_from_tags}
use route_planner.Travel.Route.Choice.{choose_places_none}
use route_planner.Travel.Route.Whole.{build_route_unchosen}
use route_planner.Travel.Handlers.{BuildRouteRequest, build_failed, analyze_handler, build_handler}

module _ {W : Type 0} (codec : JsonCodec) (s : RouteService W) where
  -- A request for a route whose first group of tags has no place in the radius is answered with 404
  -- and the text of `ErrNoPlacesFound`, after that one query.
  pub build_handler_no_places :
      (tags : List String) (groups : List (List String)) (start : Location) (radius : Float64)
      (w w' : W)
      → s.repo.find_optimal_places tags start radius w ≡ (ok [], w')
      → build_handler codec s
          (some (record { tags = tags ∷ groups; start_coords = start; radius = radius }))
          w
        ≡ (ok (not_found (message no_places_found)), w')
  unfolding build_handler
  build_handler_no_places tags groups start radius w w' h = rw (
      build_route_unchosen codec s (tags ∷ groups) start radius (sentinel no_places_found) w w'
        (choose_places_none s radius tags groups start [] w w' h))

  build_failed_status :
      (e : GoError) → (status (build_failed e) ≡ 404) ⊎ (status (build_failed e) ≡ 500)
  unfolding build_failed
  build_failed_status e = elim (Bool-cases (errors_is e no_places_found)) [
    | inl there ↦ inl (rw there)
    | inr other ↦ inr (rw other)
  ]

  -- Every answer to a well-formed request for a route is a 200 and the service built a route, a 404, or
  -- a 500.
  pub build_handler_status :
      (req : BuildRouteRequest) (a : Answer String) (w w' : W)
      → build_handler codec s (some req) w ≡ (ok a, w')
      → ((text : String) × (build_route_from_tags codec s req.tags req.start_coords req.radius w
            ≡ (ok text, w'))
          × (status a ≡ 200))
        ⊎ ((status a ≡ 404) ⊎ (status a ≡ 500))
  unfolding build_handler
  build_handler_status req a w w' h =
      elim (respond-eq-ok (plain 200) build_failed
        (build_route_from_tags codec s req.tags req.start_coords req.radius) w a w' h) [
          | inl (text, built, same) ↦ inl (text, built, rw same)
          | inr (e, failed, same) ↦ inr (rw same (build_failed_status e))
        ]

module _ {W : Type 0} (s : RouteService W) where
  -- Preferences in which the extractor finds no tag are answered with 400 and the text of
  -- `ErrExtractionFailed`.
  pub analyze_handler_no_tags :
      (split : Text → List Text) (preferences : Text) (allowed : List String)
      (groups : List (List String)) (w w₁ w₂ : W)
      → get_allowed_tags s w ≡ (ok allowed, w₁)
      → s.extractor.extract_multi_tags (split preferences) allowed w₁ ≡ (ok groups, w₂)
      → All (λ tags. tags ≡ []) groups
      → analyze_handler s split (some (record { preferences = preferences })) w
        ≡ (ok (bad_request_err (sentinel extraction_failed)), w₂)
  unfolding analyze_handler
  analyze_handler_no_tags split preferences allowed groups w w₁ w₂ known extracted empty =
      rw (analyze_request_none s split preferences allowed groups w w₁ w₂ known extracted empty)
