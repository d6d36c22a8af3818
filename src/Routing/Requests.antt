-- ===== src/Routing/Requests.antt =====
-- Which requests reach the handlers behind the limiters and behind the JWT middleware.
use route_planner.Prelude.{
  ◌≡◌, refl, sym, ap, ◌∙◌, ◌⊎◌, inl, inr, String, ◌<>◌, true, false, Bool-cases, Option, none, some,
  List, [], ◌∷◌,
}
use route_planner.Prelude.Text.{Text}
use route_planner.Effects.{Outcome, ok, panic}
use route_planner.Errors.Response.{plain, unauthorized_answer}
use route_planner.Auth.{parse_token}
use route_planner.Auth.Middleware.{refused, passed, crashed, jwt_middleware-Gate}
use route_planner.Routing.Registration.{Parts, IsParts, registered-all_routes}
use route_planner.Routing.{
  Response, Ctx, Libraries, RouterConfig, Limits, LimiterConfig, post, word, Handler, Entry, route,
  client_key, place_create_limiter, global_daily_limiter, per_user_limiter, hourly_reached,
  daily_reached, rate_reached,
}
use route_planner.Routing.App.{
  limited, authenticated, create_place, analyze, build, place_routes, user_routes, travel_routes,
  set_up_routes,
}
use route_planner.Routing.Fiber.{Serve, IsFiber, serve_elsewhere}

-- What the limiter does to a request with this key: it stops it with 429, or lets it through.
abbrev Limited :
    {W B : Type 0}
    → Libraries W B
    → LimiterConfig
    → String
    → String
    → Handler W B
    → Ctx B
    → W
    → Outcome Response × W
    → Type 0
Limited {W} libs config key reached next c w r =
    ((w₁ : W) × (libs.hit config key w ≡ (false, w₁)) × (r ≡ (ok (plain 429 reached), w₁)))
    ⊎ ((w₁ : W) × (libs.hit config key w ≡ (true, w₁)) × (r ≡ next c w₁))

module _ {W B : Type 0} (libs : Libraries W B) where
  limited-Limited :
      (config : LimiterConfig) (key : Ctx B → String) (reached : String) (next : Handler W B)
      (c : Ctx B) (w : W)
      → Limited libs config (key c) reached next c w (limited libs config key reached next c w)
  limited-Limited config key reached next c w =
      let hit = libs.hit config (key c) w in
      elim (Bool-cases hit.0) [
        | inl free ↦ inr (hit.1, ap (λ b. (b, hit.1)) free, rw free refl)
        | inr full ↦ inl (hit.1, ap (λ b. (b, hit.1)) full, rw full refl)
      ]

  module _ (p : Parts W) where
    -- What becomes of a request to build a route: the rate limit of the client's address stops it, or
    -- the application's daily limit does, or the handler runs.
    pub data BuildRequest (c : Ctx B) (w : W) (r : Outcome Response × W) : Type 0 where
      rate_limited :
          (w₁ : W)
          → libs.hit (per_user_limiter p.limits) (c.ip <> ":build_route") w ≡ (false, w₁)
          → r ≡ (ok (plain 429 rate_reached), w₁)
          → BuildRequest c w r
      daily_limited :
          (w₁ w₂ : W)
          → libs.hit (per_user_limiter p.limits) (c.ip <> ":build_route") w ≡ (true, w₁)
          → libs.hit (global_daily_limiter p.limits) "global_geo_api_req_counter" w₁ ≡ (false, w₂)
          → r ≡ (ok (plain 429 daily_reached), w₂)
          → BuildRequest c w r
      admitted :
          (w₁ w₂ : W)
          → libs.hit (per_user_limiter p.limits) (c.ip <> ":build_route") w ≡ (true, w₁)
          → libs.hit (global_daily_limiter p.limits) "global_geo_api_req_counter" w₁ ≡ (true, w₂)
          → r ≡ build libs p.limits p.routes c w₂
          → BuildRequest c w r

    -- What becomes of a request to create a place: the JWT middleware refuses it, the user's hourly
    -- limit stops it, or the handler runs for the user of a token that the service accepts. The library
    -- may panic.
    pub data CreateRequest (c : Ctx B) (w : W) (r : Outcome Response × W) : Type 0 where
      unauthorized :
          (message : String) (w₁ : W)
          → r ≡ (ok (unauthorized_answer message), w₁)
          → CreateRequest c w r
      hourly_limited :
          (token : Text) (user_id : String) (w₁ w₂ : W)
          → parse_token libs.jwt p.jwt token w ≡ (ok user_id, w₁)
          → libs.hit (place_create_limiter p.limits) (user_id <> ":create_place") w₁ ≡ (false, w₂)
          → r ≡ (ok (plain 429 hourly_reached), w₂)
          → CreateRequest c w r
      authorized :
          (token : Text) (user_id : String) (w₁ w₂ : W)
          → parse_token libs.jwt p.jwt token w ≡ (ok user_id, w₁)
          → libs.hit (place_create_limiter p.limits) (user_id <> ":create_place") w₁ ≡ (true, w₂)
          → r ≡ create_place libs p.limits p.places (record c { user_id = some user_id }) w₂
          → CreateRequest c w r
      panicked :
          (token : Text) (w₁ : W)
          → parse_token libs.jwt p.jwt token w ≡ (panic, w₁)
          → r ≡ (panic, w₁)
          → CreateRequest c w r

  module _ {serve : Serve W B} (fiber : IsFiber serve) (cfg : RouterConfig W)
      (app_config : Option Limits) (p : Parts W) (is_parts : IsParts cfg app_config p)
      (entries : List (Entry W B)) (set_up : set_up_routes libs cfg app_config ≡ ok entries) where
    abbrev build_path : List String
    build_path = "api" ∷ "v1" ∷ "routes" ∷ "build" ∷ []

    abbrev daily : Handler W B
    daily =
        limited libs (global_daily_limiter p.limits) (λ c. "global_geo_api_req_counter")
          daily_reached (build libs p.limits p.routes)

    abbrev after_limiter : List (Entry W B)
    after_limiter =
        route post (word "api" ∷ word "v1" ∷ word "routes" ∷ word "analyze" ∷ [])
          (analyze libs p.limits p.routes)
        ∷ route post (word "api" ∷ word "v1" ∷ word "routes" ∷ word "build" ∷ []) daily
        ∷ []

    serve_after : (c : Ctx B) (w : W) → serve after_limiter post build_path c w ≡ daily c w
    serve_after c w =
        fiber.route_miss _ _ _ _ post build_path refl c w
        ∙ fiber.route_match _ _ _ _ post build_path refl c w

    serve_build :
        (c : Ctx B) (w : W)
        → serve entries post build_path c w
          ≡ limited libs
              (per_user_limiter p.limits)
              (client_key ":build_route")
              rate_reached
              (serve after_limiter post build_path)
              c
              w
    unfolding place_routes user_routes travel_routes
    serve_build c w =
        let (users, signer) = p.accounts in
        ap (λ es. serve es post build_path c w)
          (sym (registered-all_routes libs cfg app_config p is_parts entries set_up))
        ∙ (serve_elsewhere fiber (place_routes libs p.limits p.places p.jwt) _ post build_path refl
              c w
            ∙ (serve_elsewhere fiber (user_routes libs p.users users signer) _ post build_path refl
                  c w
                ∙ fiber.use_match _ _ _ post build_path refl c w))

    -- For what `SetUpRoutes` registers from these parts: a build request that no middleware has given
    -- a user is counted under the client's address, and answered with 429 when the address is over its
    -- limit; if not, it is counted among those of the whole application, and answered with 429 when
    -- they are over the daily limit; if not, the handler runs.
    pub build_request :
        (c : Ctx B) (w : W)
        → c.user_id ≡ none
        → BuildRequest p c w (serve entries post ("api" ∷ "v1" ∷ "routes" ∷ "build" ∷ []) c w)
    build_request c w nobody =
        let key : client_key ":build_route" c ≡ c.ip <> ":build_route" = rw nobody refl in
        elim (limited-Limited (per_user_limiter p.limits) (client_key ":build_route") rate_reached
          (serve after_limiter post build_path) c w) [
            | inl (w₁, full, r) ↦ rate_limited w₁ (rw (sym key) full) (serve_build c w ∙ r)
            | inr (w₁, free, r) ↦
                elim (limited-Limited (global_daily_limiter p.limits)
                  (λ c. "global_geo_api_req_counter") daily_reached (build libs p.limits p.routes) c
                  w₁) [
                    | inl (w₂, full, r') ↦
                        daily_limited w₁ w₂ (rw (sym key) free) full
                          (serve_build c w ∙ (r ∙ (serve_after c w₁ ∙ r')))
                    | inr (w₂, free', r') ↦
                        admitted w₁ w₂ (rw (sym key) free) free'
                          (serve_build c w ∙ (r ∙ (serve_after c w₁ ∙ r')))
                  ]
          ]

    abbrev hourly : Handler W B
    hourly =
        limited libs (place_create_limiter p.limits) (client_key ":create_place") hourly_reached
          (create_place libs p.limits p.places)

    serve_create :
        (c : Ctx B) (w : W)
        → serve entries post ("api" ∷ "v1" ∷ "places" ∷ []) c w
          ≡ authenticated libs p.jwt hourly c w
    unfolding place_routes user_routes travel_routes
    serve_create c w =
        let path = "api" ∷ "v1" ∷ "places" ∷ [] in
        ap (λ es. serve es post path c w)
          (sym (registered-all_routes libs cfg app_config p is_parts entries set_up))
        ∙ (fiber.route_miss _ _ _ _ post path refl c w
            ∙ fiber.route_match _ _ _ _ post path refl c w)

    -- For what `SetUpRoutes` registers from these parts: a request to create a place is answered with
    -- 401; or it has a token that the service accepts, and is counted under the token's user and
    -- answered with 429 when that user is over the hourly limit, and runs the handler for that user if
    -- not; or the JWT library panics on its token.
    pub create_request :
        (c : Ctx B) (w : W)
        → CreateRequest p c w (serve entries post ("api" ∷ "v1" ∷ "places" ∷ []) c w)
    create_request c w =
        let served = serve_create c w in
        elim (jwt_middleware-Gate libs.jwt p.jwt
          (λ user_id. hourly (record c { user_id = some user_id })) c.authorization w) [
            | refused message w₁ r ↦ unauthorized message w₁ (served ∙ r)
            | passed token user_id w₁ parsed r ↦
                elim (limited-Limited (place_create_limiter p.limits) (client_key ":create_place")
                  hourly_reached (create_place libs p.limits p.places)
                  (record c { user_id = some user_id }) w₁) [
                    | inl (w₂, full, r') ↦
                        hourly_limited token user_id w₁ w₂ parsed full (served ∙ (r ∙ r'))
                    | inr (w₂, free, r') ↦
                        authorized token user_id w₁ w₂ parsed free (served ∙ (r ∙ r'))
                  ]
            | crashed token w₁ e r ↦ panicked token w₁ e (served ∙ r)
          ]
