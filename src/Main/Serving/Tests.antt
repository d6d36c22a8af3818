-- ===== src/Main/Serving/Tests.antt =====
-- Requests to a program with one route, which fails, over counters that are held in memory.
use route_planner.Prelude.{
  ℕ, suc, ◌+◌, ◌≡◌, refl, String, true, inl, inr, none, List, [], ◌∷◌, if◌then◌else◌, Bool-cases,
}
use route_planner.Errors.{other}
use route_planner.Errors.Response.{plain}
use route_planner.Effects.{pure, throw}
use route_planner.Config.{Values}
use route_planner.Routing.{Ctx, Verb, get, word, Entry, route}
use route_planner.Routing.Fiber.{fits}
use route_planner.Routing.Tests.{serve, serve-IsFiber}
use route_planner.Main.Serving.{Metrics, Front, behind, main_entries, observed}
use route_planner.Main.Serving.Counts.{
  same_labels, IsMetrics, Sent, serve_all, tally, requests_counted,
}

abbrev Counters : Type 0
Counters = String → String → ℕ → ℕ

abbrev metrics : Metrics Counters (Unit {0})
metrics = record {
  method = λ c. "GET";
  path = λ c. "/";
  unwritten = 200;
  now = λ w. (0, w);
  observe_since = λ method path start w. w;
  inc = λ method path code w method' path' code'.
      if same_labels method path code method' path' code'
      then suc (w method' path' code')
      else w method' path' code';
}

metrics-IsMetrics : IsMetrics metrics (λ w. w)
metrics-IsMetrics = record {
  inc_counts = λ method path code method' path' code' w. refl;
  now_keeps = λ w. refl;
  observe_keeps = λ method path start w. refl;
}

abbrev pub front : {W B : Type 0} → Metrics W B → Front W B
front metrics = record {
  takes_origins = λ origins. true;
  cors = λ origins next. next;
  metrics = metrics;
  metrics_page = λ c. pure (plain 200 "# HELP");
  static = λ directory next. next;
}

abbrev routes : List (Entry Counters (Unit {0}))
routes = route get (word "x" ∷ []) (λ c. throw (other "x")) ∷ []

routes_keep :
    (v : Verb) (segments : List String) (c : Ctx (Unit {0})) (w : Counters)
    → (serve (behind (front metrics) routes) v segments c w).1 ≡ w
routes_keep v segments c w = elim (Bool-cases (fits get (word "metrics" ∷ []) v segments)) [
  | inl page ↦ rw page refl
  | inr no_page ↦ elim (Bool-cases (fits get (word "x" ∷ []) v segments)) [
    | inl here ↦ rw (no_page, here) refl
    | inr missing ↦ rw (no_page, missing) refl
  ]
]

abbrev sent : String → Sent (Unit {0})
sent segment = record {
  verb = get;
  segments = segment ∷ [];
  ctx = record { ip = ""; user_id = none; authorization = []; id = ""; body = tt };
}

-- The page, the route that fails, and a path that is not there.
abbrev requests : List (Sent (Unit {0}))
requests = sent "metrics" ∷ sent "x" ∷ sent "y" ∷ []

abbrev unset : Counters
unset method path code = 0

-- The failure is counted with the page, under 200.
counted :
    (serve_all serve (main_entries (front metrics) Values.end routes) requests unset).1 "GET" "/"
      200
    ≡ 2
unfolding observed
counted = refl

requests_counted_example :
    (serve_all serve (main_entries (front metrics) Values.end routes) requests unset).1 "GET" "/"
      200
    ≡ tally metrics "GET" "/" 200
        (serve_all serve (main_entries (front metrics) Values.end routes) requests unset).0
      + 0
requests_counted_example =
    requests_counted (front metrics) serve-IsFiber metrics-IsMetrics Values.end routes "GET" "/" 200
      (λ next c w. refl) routes_keep requests unset
