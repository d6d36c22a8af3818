-- ===== src/Travel/Handlers/Tests.antt =====
-- The endpoint that builds a route, over a repository without places.
use route_planner.Prelude.{◌≡◌, refl, some, [], ◌∷◌}
use route_planner.Prelude.Int.{pos}
use route_planner.Errors.{other, message, no_places_found}
use route_planner.Errors.Response.{not_found}
use route_planner.Effects.{ok, pure, throw}
use route_planner.Models.{Location}
use route_planner.Json
use route_planner.Json.{JsonCodec}
use route_planner.Travel.{RouteService}
use route_planner.Travel.Handlers.{BuildRouteRequest, build_handler}
use route_planner.Travel.Handlers.Laws.{build_handler_no_places}

abbrev pub codec : JsonCodec
codec = record { unmarshal_map = λ s. ok (some Json.end); marshal = λ j. ok "{}" }

abbrev pub service : RouteService (Unit {0})
service = record {
  repo = record {
    get_by_id = λ id. throw (other "id");
    get_by_tags = λ tags. pure [];
    get_all_tags = pure [];
    find_optimal_places = λ tags from radius. pure [];
    create = λ p. pure p;
    update = λ id p. pure tt;
    delete = λ id. pure tt;
  };
  extractor = record {
    extract_tags = λ text tags. pure tags;
    extract_multi_tags = λ texts tags. pure (tags ∷ []);
  };
  cache = record { get = λ key. throw (other "redis: nil"); set = λ key value ttl. pure tt };
  route_api = record { build_route = λ from to. pure "{}" };
  tags_ttl = pos 10;
  counters = record { hit = λ w. w; miss = λ w. w };
}

abbrev origin : Location
origin = record { latitude = 1; longitude = 2 }

abbrev request : BuildRouteRequest
request = record { tags = ("park" ∷ []) ∷ []; start_coords = origin; radius = 0 }

no_places :
    build_handler codec service (some request) tt ≡ (ok (not_found (message no_places_found)), tt)
no_places = build_handler_no_places codec service ("park" ∷ []) [] origin 0 tt tt refl
