-- ===== src/Travel/Geoapify/Tests.antt =====
-- One request for a route, with five seconds left until the deadline.
use route_planner.Prelude.{ℕ, ◌≡◌, refl, ◌+◌, some, []}
use route_planner.Prelude.Text.{codes}
use route_planner.Prelude.Int.{pos}
use route_planner.Effects.{ok, pure}
use route_planner.Models.{Location}
use route_planner.Travel.Geoapify.{GeoapifyCalls, GeoapifyClient, build_route}
use route_planner.Travel.Geoapify.Laws.{IsRequest, build_route-IsRequest}

-- The world is the number of requests.
abbrev calls : GeoapifyCalls ℕ
calls = record {
  show_float = λ f. codes "0.000000";
  show_status = λ n. "200";
  until_deadline = pure (some (pos 5_000_000_000));
  count_request = λ n. n + 1;
  get = λ url timeout. pure (record { status = 200; body = "{}"; errors = [] });
}

abbrev client : GeoapifyClient
client = record { apikey = codes "key"; timeout = pos 10_000_000_000 }

abbrev origin : Location
origin = record { latitude = 0; longitude = 0 }

answered : build_route calls client origin origin 0 ≡ (ok "{}", 1)
unfolding build_route
answered = refl

build_route-IsRequest_example : IsRequest calls client origin origin "{}" 0 1
build_route-IsRequest_example = build_route-IsRequest calls client origin origin "{}" 0 1 answered
