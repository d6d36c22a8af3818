-- ===== src/Main/Serving.antt =====
-- What `main` of cmd/main.go registers before the routes of internal/router, and its own middleware,
-- which counts the requests.
pub mod Counts
pub mod Program
pub mod Tests
use route_planner.Prelude.{ℕ, String, Bool, List, [], ◌∷◌}
use route_planner.Effects.{Outcome, ok, err, panic}
use route_planner.Errors.Response.{status}
use route_planner.Config.{Values}
use route_planner.Main.Boot.Settings.{text_setting}
use route_planner.Routing.{Response, Ctx, get, word, Handler, Middleware, Entry, use_under, route}

-- The framework and the metrics library: `c.Method()` and `c.Route().Path` as the middleware reads them,
-- the status code of a response that nothing has written to, `time.Now()`, `Observe` with the time
-- since then, and `Inc`.
pub record Metrics (W B : Type 0) : Type 0 where
  pub method : Ctx B → String
  pub path : Ctx B → String
  pub unwritten : ℕ
  pub now : W → ℕ × W
  pub observe_since : String → String → ℕ → W → W
  pub inc : String → String → ℕ → W → W

-- What the program hands requests to before its routes: the CORS library with the allowed origins, whose
-- `New` panics where it does not take them, the page of the metrics, and the files of a directory.
pub record Front (W B : Type 0) : Type 0 where
  pub takes_origins : String → Bool
  pub cors : String → Middleware W B
  pub metrics : Metrics W B
  pub metrics_page : Handler W B
  pub static : String → Middleware W B

module _ {W B : Type 0} (m : Metrics W B) where
  -- `c.Response().StatusCode()` after `c.Next()`: an error is made a response later, by the framework.
  abbrev pub status_now : Outcome Response → ℕ
  status_now (ok answer) = status answer
  status_now (err e) = m.unwritten
  status_now panic = m.unwritten

  -- After `c.Next()`; a panic runs nothing of it.
  abbrev pub count_request : Ctx B → ℕ → Outcome Response × W → Outcome Response × W
  count_request c start (panic, w) = (panic, w)
  count_request c start (r, w) = (
    r,
    m.inc (m.method c) (m.path c) (status_now r) (m.observe_since (m.method c) (m.path c) start w),
  )

  pub observed : Middleware W B
  observed next c w = let (start, w₁) = m.now w in count_request c start (next c w₁)

module _ {W B : Type 0} (front : Front W B) where
  abbrev pub behind : List (Entry W B) → List (Entry W B)
  behind routes =
      route get (word "metrics" ∷ []) front.metrics_page
      ∷ use_under [] (front.static "./public")
      ∷ routes

  -- Everything that is registered, in this order.
  abbrev pub main_entries : Values → List (Entry W B) → List (Entry W B)
  main_entries cfg routes =
      use_under [] (front.cors (text_setting cfg "Server" "AllowOrigins"))
      ∷ use_under [] (observed front.metrics)
      ∷ behind routes
