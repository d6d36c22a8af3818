-- ===== src/Main/Serving/Counts.antt =====
-- The counter `http_requests_total` against the requests that were answered.
use route_planner.Prelude.{
  ℕ, zero, suc, ◌+◌, ◌≡◌, refl, ◌∙◌, String, Bool, ◌&&◌, List, [], ◌∷◌, ◌==◌, if◌then◌else◌, arith,
  Bool-cases, inl, inr,
}
use route_planner.Prelude.Text.{str_eq}
use route_planner.Effects.{Outcome, ok, err, panic}
use route_planner.Errors.Response.{status}
use route_planner.Config.{Values}
use route_planner.Main.Boot.Settings.{text_setting}
use route_planner.Main.Serving.{
  Metrics, Front, status_now, count_request, observed, behind, main_entries,
}
use route_planner.Routing.{Response, Ctx, Verb, Handler, Entry}
use route_planner.Routing.Fiber.{Serve, IsFiber}

abbrev pub same_labels : String → String → ℕ → String → String → ℕ → Bool
same_labels method path code method' path' code' =
    str_eq method method' && (str_eq path path' && code == code')

-- `count w method path code` is the value of the counter with these labels.
pub record IsMetrics {W B : Type 0} (m : Metrics W B) (count : W → String → String → ℕ → ℕ)
    : Type 0 where
  pub inc_counts :
      (method path : String) (code : ℕ) (method' path' : String) (code' : ℕ) (w : W)
      → count (m.inc method path code w) method' path' code' ≡ (
          if same_labels method path code method' path' code'
          then suc (count w method' path' code')
          else count w method' path' code')
  pub now_keeps : (w : W) → count (m.now w).1 ≡ count w
  pub observe_keeps :
      (method path : String) (start : ℕ) (w : W)
      → count (m.observe_since method path start w) ≡ count w

-- A request: its method and path, and what the handlers see of it.
pub record Sent (B : Type 0) : Type 0 where
  pub verb : Verb
  pub segments : List String
  pub ctx : Ctx B

module _ {W B : Type 0} (serve : Serve W B) (entries : List (Entry W B)) where
  -- The requests one after the other, with the answers.
  abbrev pub serve_all : List (Sent B) → W → List (Ctx B × Outcome Response) × W
  serve_all [] w = ([], w)
  serve_all (q ∷ qs) w =
      let (r, w₁) = serve entries q.verb q.segments q.ctx w in
      let (answers, w₂) = serve_all qs w₁ in ((q.ctx, r) ∷ answers, w₂)

module _ {W B : Type 0} (m : Metrics W B) (method path : String) (code : ℕ) where
  -- Is the answer to be counted under the labels? One that never came is not.
  abbrev pub is_counted : Ctx B → Outcome Response → Bool
  is_counted c panic = Bool.false
  is_counted c r = same_labels (m.method c) (m.path c) (status_now m r) method path code

  abbrev pub tally : List (Ctx B × Outcome Response) → ℕ
  tally [] = zero
  tally ((c, r) ∷ rs) = let rest = tally rs in if is_counted c r then suc rest else rest

module _ {W B : Type 0} (front : Front W B) {serve : Serve W B} (fiber : IsFiber serve)
    {count : W → String → String → ℕ → ℕ} (lawful : IsMetrics front.metrics count) (cfg : Values)
    (routes : List (Entry W B)) where
  module _ (method path : String) (code : ℕ) where
    -- One more, if the answer has the labels.
    abbrev after_answer : Ctx B → Outcome Response → ℕ → ℕ
    after_answer c r n = if is_counted front.metrics method path code c r then suc n else n

    inc_counted :
        (c : Ctx B) (start given : ℕ) (w : W)
        → count
            (front.metrics.inc
              (front.metrics.method c)
              (front.metrics.path c)
              given
              (front.metrics.observe_since (front.metrics.method c) (front.metrics.path c) start w))
            method
            path
            code
          ≡ (if same_labels (front.metrics.method c) (front.metrics.path c) given method path code
              then suc (count w method path code)
              else count w method path code)
    inc_counted c start given w =
        rw
          (
            lawful.inc_counts (front.metrics.method c) (front.metrics.path c) given method path code
                (front.metrics.observe_since (front.metrics.method c) (front.metrics.path c) start
                  w),
            lawful.observe_keeps (front.metrics.method c) (front.metrics.path c) start w,
          )
          refl

    count_request_counted :
        (c : Ctx B) (start : ℕ) (r : Outcome Response × W)
        → count (count_request front.metrics c start r).1 method path code
          ≡ after_answer c (count_request front.metrics c start r).0 (count r.1 method path code)
    count_request_counted c start (panic, w) = refl
    count_request_counted c start (ok a, w) = inc_counted c start (status a) w
    count_request_counted c start (err e, w) = inc_counted c start front.metrics.unwritten w

    module _
        (passes : (next : Handler W B) (c : Ctx B) (w : W)
          → front.cors (text_setting cfg "Server" "AllowOrigins") next c w ≡ next c w)
        (keeps : (v : Verb) (segments : List String) (c : Ctx B) (w : W)
          → count (serve (behind front routes) v segments c w).1 ≡ count w) where
      served :
          (q : Sent B) (w : W)
          → serve (main_entries front cfg routes) q.verb q.segments q.ctx w
            ≡ observed front.metrics (serve (behind front routes) q.verb q.segments) q.ctx w
      served q w =
          fiber.use_match [] _ _ q.verb q.segments refl q.ctx w
          ∙ passes _ q.ctx w
          ∙ fiber.use_match [] _ _ q.verb q.segments refl q.ctx w

      served_counted :
          (q : Sent B) (w : W)
          → let r = serve (main_entries front cfg routes) q.verb q.segments q.ctx w in
            count r.1 method path code ≡ after_answer q.ctx r.0 (count w method path code)
      unfolding observed
      served_counted q w = rw (served q w) (
          count_request_counted q.ctx (front.metrics.now w).0
            (serve (behind front routes) q.verb q.segments q.ctx (front.metrics.now w).1)
          ∙ rw (keeps q.verb q.segments q.ctx (front.metrics.now w).1, lawful.now_keeps w) refl)

      -- After any requests, the counter with a method, a path and a status has gone up by the number of those
      -- that came back with these labels: every request that does not panic is counted once, under the status
      -- of its answer, or, if it came back with an error, under the status of a response that nothing
      -- has written to. CORS is to hand on every request, and nothing behind the middleware to count.
      pub requests_counted :
          (qs : List (Sent B)) (w : W)
          → let (answers, w') = serve_all serve (main_entries front cfg routes) qs w in
            count w' method path code
            ≡ tally front.metrics method path code answers + count w method path code
      requests_counted [] w = omega arith
      requests_counted (q ∷ qs) w =
          let r = serve (main_entries front cfg routes) q.verb q.segments q.ctx w in
          requests_counted qs r.1
          ∙ elim (Bool-cases (is_counted front.metrics method path code q.ctx r.0)) [
            | inl counted ↦ rw counted (omega (arith, rw counted at (served_counted q w)))
            | inr uncounted ↦ rw uncounted (omega (arith, rw uncounted at (served_counted q w)))
          ]
