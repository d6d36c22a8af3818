-- ===== src/Api/Served.antt =====
-- Endpoints that are made of the repositories' calls on a row serve every request as the store does.
use mathlib.Core.Path.{fun_ext}
use route_planner.Prelude.{
  ◌≡◌, refl, inl, inr, String, true, false, Option, none, some, Bool-cases, Option-cases,
}
use route_planner.Errors.{Sentinel}
use route_planner.Errors.Response.{Answer, json}
use route_planner.Effects.{pure, respond}
use route_planner.Repository.Gorm.{Table, IsTable, IsReporting}
use route_planner.Api.{
  Request, look, change, drop, Endpoints, Rules, Store, is_up, answered, invalid_id,
}
use route_planner.Api.Rows.{
  lookup, lookup_only, delete_row, failure_answer, respond_row, lookup-IsRowCall, lookup_world,
  lookup_only-IsRowCall, lookup_only_world, delete_row-IsRowCall, delete_row_rows,
}
use route_planner.Api.Runs.{IsServed}

-- What the three handlers are for an ID that is valid and for one that is not.
pub record IsRowEndpoints {W Row Body Done : Type 0} (db : Table W Row) (absent : Sentinel)
    (endpoints : Endpoints W Row Body Done) (rules : Rules Body Done) : Type 0 where
  pub look_valid :
      (id : String)
      → rules.valid id ≡ true
      → endpoints.look id
        ≡ respond (lookup db absent id) (json 200) (failure_answer absent rules.missing)
  pub look_invalid : (id : String) → rules.valid id ≡ false → endpoints.look id ≡ pure invalid_id
  pub change_valid :
      (id : String) (body : Option Body)
      → rules.valid id ≡ true
      → rules.body_refused body ≡ none
      → endpoints.change id body
        ≡ respond
            (lookup_only db absent id)
            (λ _. json 200 rules.changed)
            (failure_answer absent rules.missing)
  pub change_refused :
      (id : String) (body : Option Body) (answer : Answer Done)
      → rules.valid id ≡ true
      → rules.body_refused body ≡ some answer
      → endpoints.change id body ≡ pure answer
  pub change_invalid :
      (id : String) (body : Option Body)
      → rules.valid id ≡ false
      → endpoints.change id body ≡ pure invalid_id
  pub drop_valid :
      (id : String)
      → rules.valid id ≡ true
      → endpoints.drop id
        ≡ respond
            (delete_row db absent id)
            (λ _. json 200 rules.dropped)
            (failure_answer absent rules.missing)
  pub drop_invalid : (id : String) → rules.valid id ≡ false → endpoints.drop id ≡ pure invalid_id

module _ {W Row Body Done : Type 0} {db : Table W Row} {absent : Sentinel}
    {endpoints : Endpoints W Row Body Done} {rules : Rules Body Done}
    (made : IsRowEndpoints db absent endpoints rules) {live : W → Store Row}
    (lawful : IsTable db live) (reports : IsReporting db absent) where
  abbrev Handled : Request Body → W → Type 0
  Handled r w = IsServed endpoints rules live (is_up db) r w

  look-Handled : (id : String) (w : W) → Handled (look id) w
  unfolding is_up answered
  look-Handled id w = elim (Bool-cases (rules.valid id)) [
    | inl valid ↦ record {
      after = (lookup db absent id w).1;
      answers =
          rw
            (
              made.look_valid id valid,
              valid,
              respond_row absent rules.missing (λ r. r) (λ r. r) (live w id) _ (lookup db absent id)
                  w (lookup-IsRowCall db lawful absent reports id w),
            )
            refl;
      leaves = rw (lookup_world db absent id w) (fun_ext (lawful.first_reads "id" id w));
    }
    | inr invalid ↦ record {
      after = w;
      answers = rw (made.look_invalid id invalid, invalid) refl;
      leaves = refl;
    }
  ]

  change-Handled : (id : String) (body : Option Body) (w : W) → Handled (change id body) w
  unfolding is_up answered
  change-Handled id body w = elim (Bool-cases (rules.valid id)) [
    | inl valid ↦ elim (Option-cases (rules.body_refused body)) [
      | inl fits ↦ record {
        after = (lookup_only db absent id w).1;
        answers =
            rw
              (
                made.change_valid id body valid fits,
                valid,
                fits,
                respond_row absent rules.missing (λ (r : Row). tt) (λ _. rules.changed) (live w id)
                    _ (lookup_only db absent id) w
                    (lookup_only-IsRowCall db lawful absent reports id w),
              )
              refl;
        leaves = rw (lookup_only_world db absent id w) (fun_ext (lawful.first_reads "id" id w));
      }
      | inr (answer, refused) ↦ record {
        after = w;
        answers = rw (made.change_refused id body answer valid refused, valid, refused) refl;
        leaves = refl;
      }
    ]
    | inr invalid ↦ record {
      after = w;
      answers = rw (made.change_invalid id body invalid, invalid) refl;
      leaves = refl;
    }
  ]

  drop-Handled : (id : String) (w : W) → Handled (drop id) w
  unfolding is_up answered
  drop-Handled id w = elim (Bool-cases (rules.valid id)) [
    | inl valid ↦ record {
      after = (delete_row db absent id w).1;
      answers =
          rw
            (
              made.drop_valid id valid,
              valid,
              respond_row absent rules.missing (λ (r : Row). tt) (λ _. rules.dropped) (live w id) _
                  (delete_row db absent id) w (delete_row-IsRowCall db lawful absent reports id w),
            )
            refl;
      leaves = rw valid (delete_row_rows db lawful absent reports id w);
    }
    | inr invalid ↦ record {
      after = w;
      answers = rw (made.drop_invalid id invalid, invalid) refl;
      leaves = rw invalid refl;
    }
  ]

  pub request-Handled : (r : Request Body) (w : W) → Handled r w
  request-Handled (look id) w = look-Handled id w
  request-Handled (change id body) w = change-Handled id body w
  request-Handled (drop id) w = drop-Handled id w
