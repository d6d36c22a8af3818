-- ===== src/Main/Serving/Program.antt =====
-- Requests to the program that has come up, through everything that `main` registers.
pub mod Tests
use route_planner.Prelude.{◌≡◌, refl, ap, sym, subst, ◌∙◌, String, some, none, false, List, [], ◌∷◌}
use route_planner.Effects.{Outcome, ok}
use route_planner.Config.{Environment, Values}
use route_planner.Config.Startup.{StructValidator, start_config}
use route_planner.Config.Startup
use route_planner.Auth.{JwtService}
use route_planner.Database.{up}
use route_planner.Main.Boot.{Clients, Connection, limits_of, jwt_of, router_config, boot}
use route_planner.Main.Boot.Settings.{text_setting}
use route_planner.Main.Boot.Up.{IsLimits, IsStarted, boot_up}
use route_planner.Main.Serving.{Front, observed, count_request, behind, main_entries}
use route_planner.Routing.{Response, Libraries, Ctx, Verb, get, post, word, Handler, Entry}
use route_planner.Routing.App.{all_routes, set_up_routes}
use route_planner.Routing.Fiber.{Serve, IsFiber, fits}
use route_planner.Routing.Registration.{Parts, IsParts, registered-all_routes}
use route_planner.Routing.Requests.{BuildRequest, build_request, CreateRequest, create_request}

same_jwt : (a b : JwtService) → some a ≡ some b → b ≡ a
same_jwt a b h = cc

module _ {W B : Type 0} (front : Front W B) where
  -- CORS and the static files hand on this request.
  pub record IsPassed (cfg : Values) (c : Ctx B) : Type 0 where
    pub cors :
        (next : Handler W B) (w : W)
        → front.cors (text_setting cfg "Server" "AllowOrigins") next c w ≡ next c w
    pub static : (next : Handler W B) (w : W) → front.static "./public" next c w ≡ next c w

  module _ {serve : Serve W B} (fiber : IsFiber serve) where
    -- Such a request is counted, and for the rest goes to the routes.
    reaches_routes :
        (cfg : Values) (routes : List (Entry W B)) (v : Verb) (path : List String) (c : Ctx B)
        (w : W)
        → fits get (word "metrics" ∷ []) v path ≡ false
        → IsPassed cfg c
        → serve (main_entries front cfg routes) v path c w
          ≡ count_request front.metrics c
              (front.metrics.now w).0
              (serve routes v path c (front.metrics.now w).1)
    unfolding observed
    reaches_routes cfg routes v path c w no_page passed =
        fiber.use_match [] _ _ v path refl c w
        ∙ passed.cors _ w
        ∙ fiber.use_match [] _ _ v path refl c w
        ∙ ap (count_request front.metrics c (front.metrics.now w).0) (
            fiber.route_miss get _ _ _ v path no_page c (front.metrics.now w).1
            ∙ fiber.use_match [] _ _ v path refl c (front.metrics.now w).1
            ∙ passed.static _ (front.metrics.now w).1)

module _ {W B : Type 0} (clients : Clients W) (libs : Libraries W B) (front : Front W B)
    {serve : Serve W B} (fiber : IsFiber serve) where
  module _ (e : Environment) (v : StructValidator) (entries : List (Entry W B)) (w₀ w₀' : W)
      (booted : boot clients libs front e v w₀ ≡ (up entries, w₀')) where
    started : IsStarted clients libs front e v entries w₀ w₀'
    started = (boot_up clients libs front e v entries w₀ w₀').0 booted

    abbrev program_routes : List (Entry W B)
    program_routes =
        let p = started.p in all_routes libs p.limits p.users p.accounts p.places p.routes p.jwt

    set_up :
        set_up_routes libs
          (router_config clients started.cfg started.db)
          (some (limits_of started.cfg))
        ≡ ok program_routes
    unfolding set_up_routes
    set_up = ap ok (
        sym (
          registered-all_routes libs (router_config clients started.cfg started.db)
            (some (limits_of started.cfg)) started.p started.made _ refl))

    route_served :
        (verb : Verb) (path : List String) (c : Ctx B) (w : W)
        → fits get (word "metrics" ∷ []) verb path ≡ false
        → ((cfg : Values) → IsPassed front cfg c)
        → serve entries verb path c w
          ≡ count_request front.metrics c
              (front.metrics.now w).0
              (serve program_routes verb path c (front.metrics.now w).1)
    route_served verb path c w no_page passed =
        ap (λ es. serve es verb path c w) (sym started.all_there)
        ∙ reaches_routes front fiber started.cfg program_routes verb path c w no_page
            (passed started.cfg)

    -- A build request to the program that has come up is counted by the middleware, and by the limits that
    -- the environment sets: under the client's address, and if that is within its limit, among those of
    -- the whole application; it gets 429 when one of the two is over its limit, and the handler runs if
    -- not. CORS and the static files are to hand on the request.
    pub boot-BuildRequest :
        (c : Ctx B) (w : W)
        → c.user_id ≡ none
        → ((cfg : Values) → IsPassed front cfg c)
        → (p : Parts W) × (r : Outcome Response × W) × IsLimits e p.limits
          × BuildRequest libs p c (front.metrics.now w).1 r
          × (serve entries post ("api" ∷ "v1" ∷ "routes" ∷ "build" ∷ []) c w
              ≡ count_request front.metrics c (front.metrics.now w).0 r)
    boot-BuildRequest c w nobody passed = (
      started.p,
      serve program_routes post ("api" ∷ "v1" ∷ "routes" ∷ "build" ∷ []) c (front.metrics.now w).1,
      started.limits,
      build_request libs fiber (router_config clients started.cfg started.db)
          (some (limits_of started.cfg)) started.p started.made program_routes set_up c
          (front.metrics.now w).1 nobody,
      route_served post ("api" ∷ "v1" ∷ "routes" ∷ "build" ∷ []) c w refl passed,
    )

    -- A request to the program to create a place is counted by the middleware, and goes one of the ways
    -- of a request to create a place: 401 without a token that the JWT service accepts, which is the one
    -- made of the secret and the lifetime of the loaded configuration, 429 when the token's user is over
    -- the hourly limit that the environment sets, or the handler for that user; or the JWT library
    -- panics. CORS and the static files are to hand on the request.
    pub boot-CreateRequest :
        (c : Ctx B) (w : W)
        → ((cfg : Values) → IsPassed front cfg c)
        → (cfg : Values) × (db : Connection W) × (p : Parts W) × (r : Outcome Response × W)
          × (start_config e v ≡ Startup.loaded cfg)
          × IsParts (router_config clients cfg db) (some (limits_of cfg)) p
          × (p.jwt ≡ jwt_of cfg)
          × IsLimits e p.limits
          × CreateRequest libs p c (front.metrics.now w).1 r
          × (serve entries post ("api" ∷ "v1" ∷ "places" ∷ []) c w
              ≡ count_request front.metrics c (front.metrics.now w).0 r)
    boot-CreateRequest c w passed = (
      started.cfg,
      started.db,
      started.p,
      serve program_routes post ("api" ∷ "v1" ∷ "places" ∷ []) c (front.metrics.now w).1,
      started.is_loaded,
      started.made,
      same_jwt (jwt_of started.cfg) started.p.jwt started.made.jwt_same,
      started.limits,
      create_request libs fiber (router_config clients started.cfg started.db)
          (some (limits_of started.cfg)) started.p started.made program_routes set_up c
          (front.metrics.now w).1,
      route_served post ("api" ∷ "v1" ∷ "places" ∷ []) c w refl passed,
    )
