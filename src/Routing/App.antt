-- ===== src/Routing/App.antt =====
-- The entries that `RegisterRoutes` of each package and `SetUpRoutes` register.
use route_planner.Prelude.{String, Option, none, some, List, [], ◌∷◌, ◌++◌, if◌then◌else◌}
use route_planner.Effects.{Outcome, ok, panic, Eff, pure, ◌>>=◌}
use route_planner.Errors.Response.{Answer, plain}
use route_planner.Repository.{PlaceRepository, UserRepository}
use route_planner.Auth.{JwtService, jwt_middleware}
use route_planner.Places
use route_planner.Users.Handlers as UserHandlers
use route_planner.Users.AuthHandlers
use route_planner.Travel.{RouteService}
use route_planner.Travel.Handlers as TravelHandlers
use route_planner.Routing.{
  Payload, place, place_done, user, user_done, session, tag_groups, text, Response, answer_map, Ctx,
  LimiterConfig, Libraries, RouterConfig, Limits, get, post, patch, delete, word, param, Handler,
  Middleware, Entry, use_under, route, client_key, place_create_limiter, global_daily_limiter,
  per_user_limiter, hourly_reached, daily_reached, rate_reached,
}

module _ {W B : Type 0} (libs : Libraries W B) where
  abbrev answered : {A : Type 0} → (A → Payload) → Eff W (Answer A) → Eff W Response
  answered f m = m >>= λ a. pure (answer_map f a)

  -- `limiter.New(config)`
  abbrev pub limited : LimiterConfig → (Ctx B → String) → String → Middleware W B
  limited config key reached next c w =
      let (free, w') = libs.hit config (key c) w in
      if free then next c w' else (ok (plain 429 reached), w')

  -- `auth.JWTMiddleware(jwtService)`
  abbrev pub authenticated : JwtService → Middleware W B
  authenticated s next c =
      jwt_middleware libs.jwt s c.authorization
        (λ user_id. next (record c { user_id = some user_id }))

  module _ (limits : Limits) where
    abbrev pub create_place : PlaceRepository W → Handler W B
    create_place repo c =
        answered place (
          Places.create_handler repo libs.place_creates c.user_id (libs.parser.place_create c.body))

    unfoldable pub place_routes : PlaceRepository W → JwtService → List (Entry W B)
    place_routes repo s =
        route get (word "api" ∷ word "v1" ∷ word "places" ∷ param ∷ [])
          (λ c. answered place (Places.get_by_id_handler repo libs.ids c.id))
        ∷ route post (word "api" ∷ word "v1" ∷ word "places" ∷ []) (
            authenticated s (
              limited (place_create_limiter limits) (client_key ":create_place") hourly_reached
                (create_place repo)))
        ∷ route patch (word "api" ∷ word "v1" ∷ word "places" ∷ param ∷ []) (λ c.
          answered place_done (
            Places.update_handler repo libs.ids libs.place_updates c.id
              (libs.parser.place_update c.body)))
        ∷ route delete (word "api" ∷ word "v1" ∷ word "places" ∷ param ∷ [])
            (λ c. answered place_done (Places.delete_by_id_handler repo libs.ids c.id))
        ∷ []

  unfoldable pub user_routes : UserRepository W → UserRepository W → JwtService → List (Entry W B)
  user_routes users accounts s =
      route post (word "api" ∷ word "v1" ∷ word "auth" ∷ word "register" ∷ []) (λ c.
        answered session (
          AuthHandlers.register accounts libs.bcrypt libs.jwt s libs.user_creates
            (libs.parser.user_create c.body)))
      ∷ route post (word "api" ∷ word "v1" ∷ word "auth" ∷ word "login" ∷ []) (λ c.
        answered session (
          AuthHandlers.login accounts libs.bcrypt libs.jwt s libs.logins
            (libs.parser.credentials c.body)))
      ∷ route get (word "api" ∷ word "v1" ∷ word "users" ∷ param ∷ [])
          (λ c. answered user (UserHandlers.get_by_id_handler users libs.ids c.id))
      ∷ route post (word "api" ∷ word "v1" ∷ word "users" ∷ []) (λ c. answered user (
          UserHandlers.create_handler users libs.bcrypt libs.user_creates
            (libs.parser.user_create c.body)))
      ∷ route patch (word "api" ∷ word "v1" ∷ word "users" ∷ param ∷ []) (λ c. answered user_done (
          UserHandlers.update_handler users libs.ids libs.user_updates c.id
            (libs.parser.user_update c.body)))
      ∷ route delete (word "api" ∷ word "v1" ∷ word "users" ∷ param ∷ [])
          (λ c. answered user_done (UserHandlers.delete_by_id_handler users libs.ids c.id))
      ∷ []

  module _ (limits : Limits) where
    abbrev pub analyze : RouteService W → Handler W B
    analyze s c =
        answered tag_groups
          (TravelHandlers.analyze_handler s libs.split (libs.parser.preferences c.body))

    abbrev pub build : RouteService W → Handler W B
    build s c = answered text (TravelHandlers.build_handler libs.codec s (libs.parser.build c.body))

    unfoldable pub travel_routes : RouteService W → List (Entry W B)
    travel_routes s =
        use_under (word "api" ∷ word "v1" ∷ word "routes" ∷ [])
          (limited (per_user_limiter limits) (client_key ":build_route") rate_reached)
        ∷ route post (word "api" ∷ word "v1" ∷ word "routes" ∷ word "analyze" ∷ []) (analyze s)
        ∷ route post (word "api" ∷ word "v1" ∷ word "routes" ∷ word "build" ∷ []) (
            limited (global_daily_limiter limits) (λ c. "global_geo_api_req_counter") daily_reached
              (build s))
        ∷ []

  -- With every part there.
  abbrev pub all_routes :
      Limits
      → UserRepository W
      → UserRepository W × JwtService
      → PlaceRepository W
      → RouteService W
      → JwtService
      → List (Entry W B)
  all_routes limits users (accounts, signer) places routes s =
      place_routes limits places s
      ++ (user_routes users accounts signer ++ travel_routes limits routes)

  abbrev with_parts :
      Limits
      → Option (UserRepository W)
      → Option (UserRepository W × JwtService)
      → Option (PlaceRepository W)
      → Option (RouteService W)
      → Option JwtService
      → Outcome (List (Entry W B))
  with_parts limits (some users) (some accounts) (some places) (some routes) (some s) =
      ok (all_routes limits users accounts places routes s)
  with_parts limits users accounts places routes s = panic

  abbrev with_config : RouterConfig W → Option Limits → Outcome (List (Entry W B))
  with_config cfg none = panic
  with_config cfg (some limits) =
      with_parts limits cfg.user_handler cfg.auth_handler cfg.place_handler cfg.route_handler
        cfg.jwt_service

  -- `SetUpRoutes`, which panics on a part that is missing.
  unfoldable pub set_up_routes : RouterConfig W → Option Limits → Outcome (List (Entry W B))
  set_up_routes cfg app_config = with_config cfg app_config
