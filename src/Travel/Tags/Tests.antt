-- ===== src/Travel/Tags/Tests.antt =====
-- The tags over a cache that keeps what it is given.
use route_planner.Prelude.{◌≡◌, refl, ap, sym, String, Option, none, some, List, [], ◌∷◌}
use route_planner.Prelude.Text.{Text, codes}
use route_planner.Prelude.Int.{pos}
use route_planner.Errors.{other, sentinel, place_not_found}
use route_planner.Effects.{Outcome, ok, err, pure, throw}
use route_planner.Repository.{PlaceRepository}
use route_planner.Travel.{RouteService, Cache}
use route_planner.Travel.Tags.{get_allowed_tags, analyze_request}
use route_planner.Travel.Tags.Laws.{IsCache}
use route_planner.Travel.Tags.Analysis.{IsAllowed, IsAnalysis, analyze_request-IsAnalysis}

-- The world is what the cache has under every key.
abbrev World : Type 0
World = Option (List String)

abbrev read : Option (List String) → Outcome (List String)
read none = err (other "redis: nil")
read (some tags) = ok tags

abbrev cache : Cache World
cache = record { get = λ key w. (read w, w); set = λ key tags ttl w. (ok tt, some tags) }

cache-IsCache : IsCache cache
cache-IsCache = record { get_set = λ key tags ttl w w' h. rw (sym (ap (λ r. r.1) h)) refl }

abbrev repo : PlaceRepository World
repo = record {
  get_by_id = λ id. throw (sentinel place_not_found);
  get_by_tags = λ tags. pure [];
  get_all_tags = pure ("park" ∷ []);
  find_optimal_places = λ tags from radius. pure [];
  create = λ p. pure p;
  update = λ id p. pure tt;
  delete = λ id. pure tt;
}

abbrev service : List (List String) → RouteService World
service groups = record {
  repo = repo;
  extractor = record {
    extract_tags = λ text tags. pure tags;
    extract_multi_tags = λ texts tags. pure groups;
  };
  cache = cache;
  route_api = record { build_route = λ from to. pure "{}" };
  tags_ttl = pos 10;
  counters = record { hit = λ w. w; miss = λ w. w };
}

abbrev one_group : List (List String)
one_group = ("park" ∷ []) ∷ []

abbrev whole : Text → List Text
whole s = s ∷ []

analyzed :
    analyze_request (service one_group) whole (codes "park") none
    ≡ (ok one_group, some ("park" ∷ []))
unfolding analyze_request get_allowed_tags
analyzed = refl

analyze_request-IsAnalysis_example :
    IsAllowed (service one_group) none (get_allowed_tags (service one_group) none)
    × IsAnalysis
        (service one_group)
        whole
        (codes "park")
        none
        (analyze_request (service one_group) whole (codes "park") none)
analyze_request-IsAnalysis_example =
    analyze_request-IsAnalysis (service one_group) whole (codes "park") none

allowed : get_allowed_tags (service ([] ∷ [])) none ≡ (ok ("park" ∷ []), some ("park" ∷ []))
unfolding get_allowed_tags
allowed = refl
