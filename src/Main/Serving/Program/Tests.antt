-- ===== src/Main/Serving/Program/Tests.antt =====
-- Requests to the program that has come up where every variable has the text "10".
use route_planner.Prelude.{◌≡◌, refl, some, [], ◌∷◌}
use route_planner.Effects.{Outcome}
use route_planner.Config.{Values}
use route_planner.Config.Tests.{tens, validator}
use route_planner.Routing.{Response, post}
use route_planner.Routing.Registration.{Parts, IsParts}
use route_planner.Routing.Requests.{BuildRequest, CreateRequest}
use route_planner.Routing.Tests.{libs, request, serve, serve-IsFiber}
use route_planner.Config.Startup.{start_config}
use route_planner.Config.Startup
use route_planner.Main.Boot.{Connection, limits_of, jwt_of, router_config}
use route_planner.Main.Boot.Tests.{clients, front, entries, came_up}
use route_planner.Main.Boot.Up.{IsLimits}
use route_planner.Main.Serving.{count_request}
use route_planner.Main.Serving.Program.{IsPassed, boot-BuildRequest, boot-CreateRequest}

request-IsPassed : (cfg : Values) → IsPassed front cfg request
request-IsPassed cfg = record { cors = λ next w. refl; static = λ next w. refl }

boot-BuildRequest_example :
    (p : Parts (Unit {0})) × (r : Outcome Response × Unit {0}) × IsLimits tens p.limits
    × BuildRequest libs p request tt r
    × (serve entries post ("api" ∷ "v1" ∷ "routes" ∷ "build" ∷ []) request tt
        ≡ count_request front.metrics request 0 r)
boot-BuildRequest_example =
    boot-BuildRequest clients libs front serve-IsFiber tens validator entries tt tt came_up request
      tt refl request-IsPassed

boot-CreateRequest_example :
    (cfg : Values) × (db : Connection (Unit {0})) × (p : Parts (Unit {0})) × (r : Outcome Response
      × Unit {0})
    × (start_config tens validator ≡ Startup.loaded cfg)
    × IsParts (router_config clients cfg db) (some (limits_of cfg)) p
    × (p.jwt ≡ jwt_of cfg)
    × IsLimits tens p.limits
    × CreateRequest libs p request tt r
    × (serve entries post ("api" ∷ "v1" ∷ "places" ∷ []) request tt
        ≡ count_request front.metrics request 0 r)
boot-CreateRequest_example =
    boot-CreateRequest clients libs front serve-IsFiber tens validator entries tt tt came_up request
      tt request-IsPassed
