-- ===== src/Travel.antt =====
-- internal/travelroutes: the interfaces of service.go and the service's fields.
pub mod Segments
pub mod Tags
pub mod Route
pub mod Geoapify
pub mod Handlers
use route_planner.Prelude.{String, List}
use route_planner.Prelude.Text.{Text}
use route_planner.Prelude.Int.{ℤ}
use route_planner.Effects.{Eff}
use route_planner.Models.{Location}
use route_planner.Repository.{PlaceRepository}

-- `Cache[[]string]`; the last argument of `set` is the time to live in nanoseconds.
pub record Cache (W : Type 0) : Type 0 where
  pub get : String → Eff W (List String)
  pub set : String → List String → ℤ → Eff W (Unit {0})

pub record TagExtractor (W : Type 0) : Type 0 where
  pub extract_tags : Text → List String → Eff W (List String)
  pub extract_multi_tags : List Text → List String → Eff W (List (List String))

pub record RouterApiClient (W : Type 0) : Type 0 where
  pub build_route : Location → Location → Eff W String

-- The two Prometheus counters of the service, which are the library's.
pub record CacheCounters (W : Type 0) : Type 0 where
  pub hit : W → W
  pub miss : W → W

-- `RouteService`, less its logger.
pub record RouteService (W : Type 0) : Type 0 where
  pub repo : PlaceRepository W
  pub extractor : TagExtractor W
  pub cache : Cache W
  pub route_api : RouterApiClient W
  pub tags_ttl : ℤ
  pub counters : CacheCounters W

-- The counters are globals of the package.
abbrev pub new_route_service :
    {W : Type 0}
    → PlaceRepository W
    → Cache W
    → TagExtractor W
    → RouterApiClient W
    → ℤ
    → CacheCounters W
    → RouteService W
new_route_service repo cache extractor route_api tags_ttl counters = record {
  repo = repo;
  extractor = extractor;
  cache = cache;
  route_api = route_api;
  tags_ttl = tags_ttl;
  counters = counters;
}
