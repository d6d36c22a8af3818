-- ===== src/Travel/Handlers.antt =====
-- internal/travelroutes/handler.go. A body that does not parse is `none`.
pub mod Laws
pub mod Tests
use route_planner.Prelude.{String, Option, none, some, List, if◌then◌else◌}
use route_planner.Prelude.Text.{Text}
use route_planner.Errors.{GoError, errors_is, error_text, extraction_failed, no_places_found}
use route_planner.Errors.Response.{
  Answer, json, plain, bad_request_err, not_found, internal_error, invalid_json,
}
use route_planner.Effects.{Eff, pure, respond}
use route_planner.Models.{Location, Float64}
use route_planner.Json.{JsonCodec}
use route_planner.Travel.{RouteService}
use route_planner.Travel.Tags.{analyze_request}
use route_planner.Travel.Route.{build_route_from_tags}

pub record RoutePreferencesRequest : Type 0 where
  pub preferences : Text

pub record BuildRouteRequest : Type 0 where
  pub tags : List (List String)
  pub start_coords : Location
  pub radius : Float64

analyze_failed : GoError → Answer (List (List String))
unfolding errors_is bad_request_err internal_error
analyze_failed e = if errors_is e extraction_failed then bad_request_err e else internal_error e

build_failed : GoError → Answer String
unfolding errors_is error_text not_found internal_error
build_failed e = if errors_is e no_places_found then not_found (error_text e) else internal_error e

module _ {W : Type 0} (s : RouteService W) where
  -- POST routes/analyze
  pub analyze_handler :
      (Text → List Text) → Option RoutePreferencesRequest → Eff W (Answer (List (List String)))
  unfolding analyze_failed invalid_json
  analyze_handler split none = pure invalid_json
  analyze_handler split (some user_input) =
      respond (analyze_request s split user_input.preferences) (json 200) analyze_failed

module _ {W : Type 0} (codec : JsonCodec) (s : RouteService W) where
  -- POST routes/build
  pub build_handler : Option BuildRouteRequest → Eff W (Answer String)
  unfolding build_failed invalid_json
  build_handler none = pure invalid_json
  build_handler (some req) =
      respond (build_route_from_tags codec s req.tags req.start_coords req.radius) (plain 200)
        build_failed
