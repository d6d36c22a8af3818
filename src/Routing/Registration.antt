-- ===== src/Routing/Registration.antt =====
-- When the router registers its routes, and which.
use route_planner.Prelude.{◌≡◌, refl, sym, ◌∙◌, ◌⊎◌, ◌↔◌, inl, inr, Option, none, some, List}
use route_planner.Effects.{ok_injective, ok, panic}
use route_planner.Repository.{PlaceRepository, UserRepository}
use route_planner.Auth.{JwtService}
use route_planner.Travel.{RouteService}
use route_planner.Routing.{Libraries, RouterConfig, Limits, Entry}
use route_planner.Routing.App.{all_routes, set_up_routes}

-- One of the parts of the router's configuration is missing.
abbrev pub IsMissing : {W : Type 0} → RouterConfig W → Option Limits → Type 0
IsMissing cfg app_config =
    (app_config ≡ none)
    ⊎ ((cfg.user_handler ≡ none)
        ⊎ ((cfg.auth_handler ≡ none)
            ⊎ ((cfg.place_handler ≡ none)
                ⊎ ((cfg.route_handler ≡ none) ⊎ (cfg.jwt_service ≡ none)))))

-- The parts of a router's configuration that the routes stand on.
pub record Parts (W : Type 0) : Type 0 where
  pub users : UserRepository W
  pub accounts : UserRepository W × JwtService
  pub places : PlaceRepository W
  pub routes : RouteService W
  pub jwt : JwtService
  pub limits : Limits

-- They are those of the configuration.
pub record IsParts {W : Type 0} (cfg : RouterConfig W) (app_config : Option Limits) (p : Parts W)
    : Type 0 where
  pub users_same : cfg.user_handler ≡ some p.users
  pub accounts_same : cfg.auth_handler ≡ some p.accounts
  pub places_same : cfg.place_handler ≡ some p.places
  pub routes_same : cfg.route_handler ≡ some p.routes
  pub jwt_same : cfg.jwt_service ≡ some p.jwt
  pub limits_same : app_config ≡ some p.limits

module _ {W B : Type 0} (libs : Libraries W B) where
  -- `SetUpRoutes` is given all the parts, and registers their routes, or it panics on one that is
  -- missing.
  Registration : RouterConfig W → Option Limits → Type 0
  Registration cfg app_config =
      ((p : Parts W) × IsParts cfg app_config p
        × (set_up_routes libs cfg app_config
            ≡ ok (all_routes libs p.limits p.users p.accounts p.places p.routes p.jwt)))
      ⊎ (IsMissing cfg app_config × (set_up_routes libs cfg app_config ≡ panic))

  registration_with :
      (limits : Option Limits) (users : Option (UserRepository W))
      (accounts : Option (UserRepository W × JwtService)) (places : Option (PlaceRepository W))
      (routes : Option (RouteService W)) (jwt : Option JwtService)
      → Registration
          (record {
            user_handler = users;
            auth_handler = accounts;
            place_handler = places;
            route_handler = routes;
            jwt_service = jwt;
          })
          limits
  unfolding Registration set_up_routes
  registration_with none users accounts places routes jwt = inr (inl refl, refl)
  registration_with (some l) none accounts places routes jwt = inr (inr (inl refl), refl)
  registration_with (some l) (some u) none places routes jwt = inr (inr (inr (inl refl)), refl)
  registration_with (some l) (some u) (some a) none routes jwt =
      inr (inr (inr (inr (inl refl))), refl)
  registration_with (some l) (some u) (some a) (some p) none jwt =
      inr (inr (inr (inr (inr (inl refl)))), refl)
  registration_with (some l) (some u) (some a) (some p) (some r) none =
      inr (inr (inr (inr (inr (inr refl)))), refl)
  registration_with (some l) (some u) (some a) (some p) (some r) (some j) = inl (
    record { users = u; accounts = a; places = p; routes = r; jwt = j; limits = l },
    record {
      users_same = refl;
      accounts_same = refl;
      places_same = refl;
      routes_same = refl;
      jwt_same = refl;
      limits_same = refl;
    },
    refl,
  )

  registration : (cfg : RouterConfig W) (app_config : Option Limits) → Registration cfg app_config
  registration cfg app_config =
      registration_with app_config cfg.user_handler cfg.auth_handler cfg.place_handler
        cfg.route_handler cfg.jwt_service

  IsParts-IsMissing :
      (cfg : RouterConfig W) (app_config : Option Limits) (p : Parts W)
      → IsParts cfg app_config p
      → ¬ (IsMissing cfg app_config)
  IsParts-IsMissing cfg app_config p h (inl limits) = let there = h.limits_same in cc
  IsParts-IsMissing cfg app_config p h (inr (inl users)) = let there = h.users_same in cc
  IsParts-IsMissing cfg app_config p h (inr (inr (inl accounts))) =
      let there = h.accounts_same in cc
  IsParts-IsMissing cfg app_config p h (inr (inr (inr (inl places)))) =
      let there = h.places_same in cc
  IsParts-IsMissing cfg app_config p h (inr (inr (inr (inr (inl routes))))) =
      let there = h.routes_same in cc
  IsParts-IsMissing cfg app_config p h (inr (inr (inr (inr (inr jwt))))) =
      let there = h.jwt_same in cc

  -- `SetUpRoutes` panics exactly when the configuration, one of the four handlers or the JWT service
  -- is missing.
  pub set_up_routes-panic_iff :
      (cfg : RouterConfig W) (app_config : Option Limits)
      → (set_up_routes libs cfg app_config ≡ panic) ↔ IsMissing cfg app_config
  unfolding Registration
  set_up_routes-panic_iff cfg app_config = elim (registration cfg app_config) [
    | inl (p, is_parts, registered-all_routes) ↦
        (λ panics. cc, λ missing. absurd (IsParts-IsMissing cfg app_config p is_parts missing))
    | inr (missing, panics) ↦ (λ _. missing, λ _. panics)
  ]

  -- What is registered-all_routes with all the parts there.
  pub registered-all_routes :
      (cfg : RouterConfig W) (app_config : Option Limits) (p : Parts W)
      → IsParts cfg app_config p
      → (entries : List (Entry W B)) → set_up_routes libs cfg app_config ≡ ok entries
      → all_routes libs p.limits p.users p.accounts p.places p.routes p.jwt ≡ entries
  unfolding set_up_routes
  registered-all_routes cfg app_config p same entries h =
      let done : set_up_routes libs cfg app_config
          ≡ ok (all_routes libs p.limits p.users p.accounts p.places p.routes p.jwt) =
        rw
          (
            same.limits_same, same.users_same, same.accounts_same, same.places_same,
            same.routes_same, same.jwt_same,
          )
          refl in
      ok_injective _ _ (sym done ∙ h)
