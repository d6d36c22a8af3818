-- ===== src/Travel/Route/Tests.antt =====
-- A route over one place, with a repository, a route API and a codec that answer at once.
use route_planner.Prelude.{◌≡◌, refl, String, none, some, List, [], ◌∷◌}
use route_planner.Prelude.Int.{pos}
use route_planner.Errors.{other}
use route_planner.Effects.{ok, pure, throw}
use route_planner.Models.{Location, Place}
use route_planner.Repository.Places.{place_repository, find_optimal_places}
use route_planner.Repository.Queries.{is_true}
use route_planner.Repository.Queries.Memory.{memory_queries, memory_queries-IsQueries}
use route_planner.Repository.Queries.Refinement.{place_repository-IsFinder}
use route_planner.Repository.Queries.Tests as QueryTests
use route_planner.Json
use route_planner.Json.{Json, Fields, JsonCodec}
use route_planner.Travel.{RouteService}
use route_planner.Travel.Route.{
  first_unused, choose_place, choose_places, build_legs, build_route_from_tags,
}
use route_planner.Travel.Route.Whole.{
  IsRoute, build_route_from_tags-IsRoute, IsBestRoute, build_route_from_tags-IsBestRoute,
}

abbrev origin : Location
origin = record { latitude = 1; longitude = 2 }

abbrev place : String → Place
place id = record {
  id = id;
  name = "cafe";
  tags = "coffee" ∷ [];
  description = "d";
  location = record { latitude = 3; longitude = 4 };
  address = "a";
  rating = 0;
  created_by = "u";
  created_at = 0;
  updated_at = 0;
  deleted_at = none;
}

abbrev codec : JsonCodec
codec = record { unmarshal_map = λ s. ok (some Json.end); marshal = λ j. ok "{}" }

abbrev null_codec : JsonCodec
null_codec = record { unmarshal_map = λ s. ok none; marshal = λ j. ok "{}" }

abbrev places : List Place
places = place "1" ∷ place "2" ∷ []

abbrev service : RouteService (Unit {0})
service = record {
  repo = record {
    get_by_id = λ id. pure (place id);
    get_by_tags = λ tags. pure places;
    get_all_tags = pure ("coffee" ∷ []);
    find_optimal_places = λ tags from radius. pure places;
    create = λ p. pure p;
    update = λ id p. pure tt;
    delete = λ id. pure tt;
  };
  extractor = record {
    extract_tags = λ text tags. pure tags;
    extract_multi_tags = λ texts tags. pure (tags ∷ []);
  };
  cache = record { get = λ key. throw (other "redis: nil"); set = λ key value ttl. pure tt };
  route_api = record { build_route = λ from to. pure "{}" };
  tags_ttl = pos 10;
  counters = record { hit = λ w. w; miss = λ w. w };
}

abbrev groups : List (List String)
groups = ("coffee" ∷ []) ∷ ("tea" ∷ []) ∷ []

built : build_route_from_tags codec service groups origin 0 tt ≡ (ok "{}", tt)
unfolding build_route_from_tags choose_places choose_place first_unused build_legs
built = refl

build_route_from_tags-IsRoute_example : IsRoute codec service groups origin "{}"
build_route_from_tags-IsRoute_example =
    build_route_from_tags-IsRoute codec service groups origin 0 "{}" tt tt built

-- The same service over the rows of the queries' tests.
abbrev over_rows : RouteService (List Place)
over_rows = record {
  repo = place_repository QueryTests.table (memory_queries QueryTests.within);
  extractor = record {
    extract_tags = λ text tags. pure tags;
    extract_multi_tags = λ texts tags. pure (tags ∷ []);
  };
  cache = record { get = λ key. throw (other "redis: nil"); set = λ key value ttl. pure tt };
  route_api = record { build_route = λ from to. pure "{}" };
  tags_ttl = pos 10;
  counters = record { hit = λ w. w; miss = λ w. w };
}

abbrev drinks : List (List String)
drinks = ("coffee" ∷ "tea" ∷ []) ∷ ("coffee" ∷ []) ∷ ("tea" ∷ []) ∷ []

built_over_rows :
    build_route_from_tags codec over_rows drinks QueryTests.origin 5 QueryTests.rows
    ≡ (ok "{}", QueryTests.rows)
unfolding build_route_from_tags choose_places choose_place first_unused build_legs
    find_optimal_places is_true
built_over_rows = refl

build_route_from_tags-IsBestRoute_example :
    IsBestRoute codec over_rows QueryTests.within QueryTests.rows drinks QueryTests.origin 5 "{}"
build_route_from_tags-IsBestRoute_example =
    build_route_from_tags-IsBestRoute codec over_rows
      (place_repository-IsFinder QueryTests.table (memory_queries QueryTests.within)
        (memory_queries-IsQueries QueryTests.within))
      drinks QueryTests.origin 5 "{}" QueryTests.rows QueryTests.rows built_over_rows
