-- ===== src/Main/Boot/Up.antt =====
-- What the program serves once it is up, and with which limits.
use route_planner.Prelude.{
  ◌≡◌, ◌↔◌, ◌∙◌, refl, sym, ap, some, List, Bool, true, false, Bool-cases, inl, inr,
}
use route_planner.Main.Serving.{Front, main_entries}
use route_planner.Prelude.Text.{codes}
use route_planner.Config.{Values, atoi, Environment}
use route_planner.Config.Load.{Filled}
use route_planner.Config.Startup.{config_fields, StructValidator, Start, start_config}
use route_planner.Config.Startup
use route_planner.Config.Startup.Laws.{loaded-Filled}
use route_planner.Database.{Boot, up, exited, panicked, init_db}
use route_planner.Routing.{Libraries, Limits, Entry}
use route_planner.Routing.App.{all_routes, set_up_routes}
use route_planner.Routing.Registration.{Parts, IsParts, registered-all_routes}
use route_planner.Main.Boot.{
  Clients, Connection, limits_of, users_of, places_of, jwt_of, routes_of, router_config, store_url,
  with_store, with_database, with_start, boot,
}
use route_planner.Main.Boot.Read.{given_or, int_setting_lem}
use route_planner.Main.Boot.Settings.{text_setting}

-- The limits are the numbers of their variables, or else the defaults.
pub record IsLimits (e : Environment) (l : Limits) : Type 0 where
  pub per_hour :
      atoi (codes (given_or e "PLACE_CREATE_LIMIT_PER_HOUR" "100"))
      ≡ some l.place_create_limit_per_hour
  pub per_day :
      atoi (codes (given_or e "ROUTE_BUILD_TOTAL_PER_DAY" "1000"))
      ≡ some l.route_build_total_per_day
  pub per_30s :
      atoi (codes (given_or e "ROUTE_BUILD_USER_PER_30S" "5")) ≡ some l.route_build_user_per_30s

limits_of-IsLimits :
    (e : Environment) (cfg : Values) → Filled e config_fields cfg → IsLimits e (limits_of cfg)
limits_of-IsLimits e cfg filled = record {
  per_hour =
      int_setting_lem e "Server" "PlaceCreateLimitPerHour" _ _ _ cfg filled refl refl (refl, refl)
        (λ h. cc);
  per_day =
      int_setting_lem e "Server" "RouteBuildTotalPerDay" _ _ _ cfg filled refl refl (refl, refl)
        (λ h. cc);
  per_30s =
      int_setting_lem e "Server" "RouteBuildUserPer30S" _ _ _ cfg filled refl refl (refl, refl)
        (λ h. cc);
}

module _ {W B : Type 0} (clients : Clients W) (libs : Libraries W B) (front : Front W B) where
  -- The configuration that was loaded, the database and the store that were opened, with the parts that are made of
  -- them: what is registered is what comes before the routes, and then the routes of the parts. The
  -- endpoints read the users and places of one repository each, and the middleware accepts the tokens
  -- of the service that the login signs with.
  pub record IsStarted (e : Environment) (v : StructValidator) (entries : List (Entry W B))
      (w w' : W) : Type 0 where
    pub cfg : Values
    pub db : Connection W
    pub p : Parts W
    pub is_loaded : start_config e v ≡ Startup.loaded cfg
    pub between : W
    pub opened : init_db clients.gorm (text_setting cfg "DB" "DatabaseURL") w ≡ (up db, between)
    pub store_there : clients.open_store (store_url cfg) between ≡ (true, w')
    pub origins : front.takes_origins (text_setting cfg "Server" "AllowOrigins") ≡ true
    pub made : IsParts (router_config clients cfg db) (some (limits_of cfg)) p
    pub all_there :
        main_entries front cfg (all_routes libs p.limits p.users p.accounts p.places p.routes p.jwt)
        ≡ entries
    pub one_signer : p.accounts ≡ (p.users, p.jwt)
    pub one_repository : p.routes.repo ≡ p.places
    pub limits : IsLimits e p.limits

  abbrev parts_of : Values → Connection W → Parts W
  parts_of cfg db = record {
    users = users_of db;
    accounts = (users_of db, jwt_of cfg);
    places = places_of db;
    routes = routes_of clients cfg (places_of db);
    jwt = jwt_of cfg;
    limits = limits_of cfg;
  }

  parts_of-IsParts :
      (cfg : Values) (db : Connection W)
      → IsParts (router_config clients cfg db) (some (limits_of cfg)) (parts_of cfg db)
  parts_of-IsParts cfg db = record {
    users_same = refl;
    accounts_same = refl;
    places_same = refl;
    routes_same = refl;
    jwt_same = refl;
    limits_same = refl;
  }

  -- The entries of these parts.
  abbrev entries_of : Values → Parts W → List (Entry W B)
  entries_of cfg p =
      main_entries front cfg (all_routes libs p.limits p.users p.accounts p.places p.routes p.jwt)

  with_store_up :
      (cfg : Values) (db : Connection W) (r : Bool × W) (entries : List (Entry W B)) (w' : W)
      → with_store clients libs front cfg db r ≡ (up entries, w')
      → (r ≡ (true, w'))
        × (front.takes_origins (text_setting cfg "Server" "AllowOrigins") ≡ true)
        × (entries_of cfg (parts_of cfg db) ≡ entries)
  unfolding set_up_routes
  with_store_up cfg db (false, w) entries w' h =
      let other : panicked ≡ up entries = ap (λ r. r.0) h in cc
  with_store_up cfg db (true, w) entries w' h =
      elim (Bool-cases (front.takes_origins (text_setting cfg "Server" "AllowOrigins"))) [
        | inl takes ↦
            let there : up (entries_of cfg (parts_of cfg db)) ≡ up entries =
              rw takes at (ap (λ r. r.0) h) in
            (ap (λ r. (true, r.1)) h, takes, cc)
        | inr refuses ↦ let other : panicked ≡ up entries = rw refuses at (ap (λ r. r.0) h) in cc
      ]

  -- What is there once the database is opened.
  abbrev IsUp : Values → Connection W → List (Entry W B) → W → W → Type 0
  IsUp cfg db entries w₁ w' =
      (clients.open_store (store_url cfg) w₁ ≡ (true, w'))
      × (front.takes_origins (text_setting cfg "Server" "AllowOrigins") ≡ true)
      × (entries_of cfg (parts_of cfg db) ≡ entries)

  with_database_up :
      (cfg : Values) (r : Boot (Connection W) × W) (entries : List (Entry W B)) (w' : W)
      → with_database clients libs front cfg r ≡ (up entries, w')
      → (db : Connection W) × (w₁ : W) × (r ≡ (up db, w₁)) × IsUp cfg db entries w₁ w'
  with_database_up cfg (up db, w) entries w' h =
      (db, w, refl, with_store_up cfg db (clients.open_store (store_url cfg) w) entries w' h)
  with_database_up cfg (exited code, w) entries w' h =
      let other : exited code ≡ up entries = ap (λ r. r.0) h in cc
  with_database_up cfg (panicked, w) entries w' h =
      let other : panicked ≡ up entries = ap (λ r. r.0) h in cc

  with_start_up :
      (s : Start) (w : W) (entries : List (Entry W B)) (w' : W)
      → with_start clients libs front s w ≡ (up entries, w')
      → (cfg : Values) × (db : Connection W) × (w₁ : W) × (s ≡ Startup.loaded cfg)
        × (init_db clients.gorm (text_setting cfg "DB" "DatabaseURL") w ≡ (up db, w₁))
        × IsUp cfg db entries w₁ w'
  with_start_up (Startup.loaded cfg) w entries w' h =
      let (db, w₁, opened, there) =
        with_database_up cfg (init_db clients.gorm (text_setting cfg "DB" "DatabaseURL") w) entries
          w' h in
      (cfg, db, w₁, refl, opened, there)
  with_start_up (Startup.exited code) w entries w' h =
      let other : exited code ≡ up entries = ap (λ r. r.0) h in cc
  with_start_up Startup.panicked w entries w' h =
      let other : panicked ≡ up entries = ap (λ r. r.0) h in cc

  started :
      (e : Environment) (v : StructValidator) (entries : List (Entry W B)) (w w' : W)
      → boot clients libs front e v w ≡ (up entries, w')
      → IsStarted e v entries w w'
  unfolding boot
  started e v entries w w' h =
      let (cfg, db, w₁, is_loaded, opened, parts) =
        with_start_up (start_config e v) w entries w' h in
      let (store_there, origins, there) = parts in
      record {
        cfg = cfg;
        db = db;
        p = parts_of cfg db;
        is_loaded = is_loaded;
        between = w₁;
        opened = opened;
        store_there = store_there;
        origins = origins;
        made = parts_of-IsParts cfg db;
        all_there = there;
        one_signer = refl;
        one_repository = refl;
        limits = limits_of-IsLimits e cfg (loaded-Filled e v cfg is_loaded);
      }

  comes_up :
      (e : Environment) (v : StructValidator) (entries : List (Entry W B)) (w w' : W)
      → IsStarted e v entries w w'
      → boot clients libs front e v w ≡ (up entries, w')
  unfolding boot set_up_routes
  comes_up e v entries w w' s =
      rw (s.is_loaded, s.opened, s.store_there, s.origins)
        (ap (λ es. (up es, w'))
          (ap (main_entries front s.cfg) (
              sym (
                registered-all_routes libs (router_config clients s.cfg s.db)
                  (some (limits_of s.cfg)) s.p s.made _ refl))
            ∙ s.all_there))

  -- The program comes up exactly when its configuration is loaded, its database is opened, the Redis store
  -- of the limiters answers and the CORS library takes the configured origins. What it has then
  -- registered is CORS, the middleware of the metrics, their page, the static files, and all the
  -- routes, from parts that belong together: the endpoints read the users and places of one repository
  -- each, the middleware accepts the tokens of the service that the login signs with, and the limits
  -- are the numbers of their variables in the environment, or 100 places an hour, 1000 routes a day and
  -- 5 routes in 30 seconds where a variable is not set.
  pub boot_up :
      (e : Environment) (v : StructValidator) (entries : List (Entry W B)) (w w' : W)
      → (boot clients libs front e v w ≡ (up entries, w')) ↔ IsStarted e v entries w w'
  boot_up e v entries w w' = (started e v entries w w', comes_up e v entries w w')
