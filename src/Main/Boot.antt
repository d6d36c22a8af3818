-- ===== src/Main/Boot.antt =====
-- The start of `main` in cmd/main.go: the configuration, the database, the services made from them,
-- and the routes.
pub mod Settings
pub mod Read
pub mod Up
pub mod Tests
use route_planner.Prelude.{
  ℕ, String, ◌<>◌, Bool, true, false, if◌then◌else◌, Option, none, some, List, [], ◌∷◌,
}
use route_planner.Prelude.Text.{Text, codes}
use route_planner.Prelude.Int.{ℤ}
use route_planner.Effects.{Outcome, ok, err, panic, Eff}
use route_planner.Models.{User, Place}
use route_planner.Repository.{PlaceRepository, UserRepository}
use route_planner.Repository.Gorm.{Table}
use route_planner.Repository.Users.{user_repository}
use route_planner.Repository.Places.{PlaceQueries, place_repository}
use route_planner.Auth.{JwtService, new_jwt_service}
use route_planner.Redis.{RedisClient, ValueCodec, redis_cache}
use route_planner.Llm.{OllamaCalls, LlmService, new_llm_service, extract_tags}
use route_planner.Travel.{RouteService, TagExtractor, CacheCounters, new_route_service}
use route_planner.Travel.Geoapify.{GeoapifyCalls, new_geoapify_client, router_api}
use route_planner.Config.{Values, Environment}
use route_planner.Config.Startup
use route_planner.Config.Startup.{StructValidator, Start, start_config}
use route_planner.Database.{Boot, up, exited, panicked, Gorm, init_db}
use route_planner.Routing.{Libraries, RouterConfig, Limits, Entry}
use route_planner.Routing.App.{set_up_routes}
use route_planner.Main.Serving.{Front, main_entries}
use route_planner.Main.Boot.Settings.{text_setting, int_setting}

-- The tables and queries of a connection.
pub record Connection (W : Type 0) : Type 0 where
  pub users : Table W User
  pub places : Table W Place
  pub queries : PlaceQueries W

-- The libraries behind the services: `extract_multi_tags` is `ExtractMultiTags`, whose goroutines are
-- the subject of Llm/Pool. `open_store` is `New` of the limiters' Redis store at a URL: does it come back,
-- or panic because Redis does not answer?
pub record Clients (W : Type 0) : Type 0 where
  pub gorm : Gorm W (Connection W)
  pub open_store : String → W → Bool × W
  pub redis : RedisClient W
  pub tags_codec : ValueCodec (List String)
  pub ollama : OllamaCalls W
  pub extract_multi_tags : LlmService → List Text → List String → Eff W (List (List String))
  pub geoapify : GeoapifyCalls W
  pub counters : CacheCounters W

abbrev pub limits_of : Values → Limits
limits_of cfg = record {
  place_create_limit_per_hour = int_setting cfg "Server" "PlaceCreateLimitPerHour";
  route_build_total_per_day = int_setting cfg "Server" "RouteBuildTotalPerDay";
  route_build_user_per_30s = int_setting cfg "Server" "RouteBuildUserPer30S";
}

abbrev pub users_of : {W : Type 0} → Connection W → UserRepository W
users_of db = user_repository db.users

abbrev pub places_of : {W : Type 0} → Connection W → PlaceRepository W
places_of db = place_repository db.places db.queries

abbrev pub jwt_of : Values → JwtService
jwt_of cfg =
    new_jwt_service (codes (text_setting cfg "Auth" "JWTSecret"))
      (int_setting cfg "Auth" "JWTExpirationHours")

module _ {W : Type 0} (clients : Clients W) (cfg : Values) where
  abbrev extractor_of : TagExtractor W
  extractor_of =
      let service = new_llm_service (codes (text_setting cfg "LLM" "OllamaURL")) in
      record {
        extract_tags = extract_tags clients.ollama service;
        extract_multi_tags = clients.extract_multi_tags service;
      }

  abbrev pub routes_of : PlaceRepository W → RouteService W
  routes_of places =
      let client =
        new_geoapify_client (codes (text_setting cfg "API" "GeoapifyAPIKey"))
          (int_setting cfg "API" "ReqTimeout") in
      new_route_service places (redis_cache clients.redis clients.tags_codec) extractor_of
        (router_api clients.geoapify client) (int_setting cfg "Server" "CacheTagsRefreshTimeMin")
        clients.counters

  abbrev pub router_config : Connection W → RouterConfig W
  router_config db = record {
    user_handler = some (users_of db);
    auth_handler = some (users_of db, jwt_of cfg);
    place_handler = some (places_of db);
    route_handler = some (routes_of (places_of db));
    jwt_service = some (jwt_of cfg);
  }

abbrev pub registered : {A : Type 0} → Outcome A → Boot A
registered (ok entries) = up entries
registered (err e) = panicked
registered panic = panicked

-- The URL of the limiters' store, with no user.
abbrev pub store_url : Values → String
store_url cfg =
    let address =
      text_setting cfg "Cache" "RedisHost" <> (":" <> text_setting cfg "Cache" "RedisPort") in
    "redis://" <> (":" <> (text_setting cfg "Cache" "RedisPassword" <> ("@" <> (address <> "/1"))))

-- The routes behind what is registered before them.
abbrev pub fronted :
    {W B : Type 0} → Front W B → Values → Boot (List (Entry W B)) → Boot (List (Entry W B))
fronted front cfg (up routes) = up (main_entries front cfg routes)
fronted front cfg (exited code) = exited code
fronted front cfg panicked = panicked

module _ {W B : Type 0} (clients : Clients W) (libs : Libraries W B) (front : Front W B) where
  -- `cors.New` panics on origins that it does not take, and so nothing is registered.
  abbrev pub with_store : Values → Connection W → Bool × W → Boot (List (Entry W B)) × W
  with_store cfg db (false, w) = (panicked, w)
  with_store cfg db (true, w) = (
    if front.takes_origins (text_setting cfg "Server" "AllowOrigins")
        then fronted front cfg
            (registered (set_up_routes libs (router_config clients cfg db) (some (limits_of cfg))))
        else panicked,
    w,
  )

  abbrev pub with_database : Values → Boot (Connection W) × W → Boot (List (Entry W B)) × W
  with_database cfg (up db, w) = with_store cfg db (clients.open_store (store_url cfg) w)
  with_database cfg (exited code, w) = (exited code, w)
  with_database cfg (panicked, w) = (panicked, w)

  abbrev pub with_start : Start → W → Boot (List (Entry W B)) × W
  with_start (Startup.loaded cfg) w =
      with_database cfg (init_db clients.gorm (text_setting cfg "DB" "DatabaseURL") w)
  with_start (Startup.exited code) w = (exited code, w)
  with_start Startup.panicked w = (panicked, w)

  -- `main` up to `SetUpRoutes`. The warmup of the model is started on the way and not waited for, and
  -- `fiber.New` has nothing that fails.
  pub boot : Environment → StructValidator → W → Boot (List (Entry W B)) × W
  boot e v w = with_start (start_config e v) w
