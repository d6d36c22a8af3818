-- ===== src/Api/Runs.antt =====
-- Requests one after the other, against the store of rows.
use route_planner.Prelude.{◌≡◌, refl, sym, Bool, List, [], ◌∷◌}
use route_planner.Effects.{ok}
use route_planner.Api.{
  Request, Endpoints, Store, Rules, handle_request, handle_requests, serve, serve_requests,
}

module _ {W Row Body Done : Type 0} where
  -- The endpoint answers as the store does, and leaves the rows that the store leaves.
  pub record IsServed (endpoints : Endpoints W Row Body Done) (rules : Rules Body Done)
      (live : W → Store Row) (up : Request Body → W → Bool) (r : Request Body) (w : W)
      : Type 0 where
    pub after : W
    pub answers : handle_request endpoints r w ≡ (ok (serve rules (up r w) r (live w)).0, after)
    pub leaves : live after ≡ (serve rules (up r w) r (live w)).1

  module _ (endpoints : Endpoints W Row Body Done) (up : Request Body → W → Bool) where
    -- The requests with what the database does about each.
    abbrev pub conditions : List (Request Body) → W → List (Bool × Request Body)
    conditions [] w = []
    conditions (r ∷ rs) w = (up r w, r) ∷ conditions rs (handle_request endpoints r w).1

    -- The requests are answered as this store does, and leave the rows that it then has.
    abbrev pub AreServedFrom :
        Rules Body Done → (W → Store Row) → Store Row → List (Request Body) → W → Type 0
    AreServedFrom rules live s rs w =
        let (answers, s') = serve_requests rules (conditions rs w) s in
        (w' : W) × (handle_requests endpoints rs w ≡ (ok answers, w')) × (live w' ≡ s')

    abbrev pub AreServed : Rules Body Done → (W → Store Row) → List (Request Body) → W → Type 0
    AreServed rules live rs w = AreServedFrom rules live (live w) rs w

    -- Endpoints that serve each request serve every sequence of them.
    pub handle_requests-AreServed :
        (rules : Rules Body Done) (live : W → Store Row)
        → ((r : Request Body) (w : W) → IsServed endpoints rules live up r w)
        → (rs : List (Request Body)) (w : W) → AreServed rules live rs w
    handle_requests-AreServed rules live step [] w = (w, refl, refl)
    handle_requests-AreServed rules live step (r ∷ rs) w =
        let done = step r w in
        let (w', later, rows) = handle_requests-AreServed rules live step rs done.after in
        (
          w',
          rw (done.answers, later) (rw done.leaves refl),
          rw (done.answers, sym done.leaves) rows,
        )
