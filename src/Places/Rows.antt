-- ===== src/Places/Rows.antt =====
-- The place endpoints over the database.
use route_planner.Prelude.{
  ℕ, ◌≡◌, ap, sym, ◌≢◌, ◌⊎◌, inl, inr, String, Option, none, some, List, arith, Bool-cases,
}
use route_planner.Prelude.Text.{str_eq}
use route_planner.Errors.{GoError, sentinel, other, invalid_place_data}
use route_planner.Errors.Response.{
  Answer, json, bad_request_err, send_validation_errors, invalid_json,
}
use route_planner.Effects.{Outcome, ok, err, panic, ok_injective, respond}
use route_planner.Effects.Laws.{respond-eq-ok, outcome_pair}
use route_planner.Models.{Place, PlaceUpdateRequest}
use route_planner.Repository.{PlaceRepository}
use route_planner.Repository.Gorm.{Table, IsTable}
use route_planner.Repository.Places as PlaceRows
use route_planner.Repository.Places.{PlaceQueries, place_repository}
use route_planner.Repository.Places.Laws as RowLaws
use route_planner.Validation.{Validator, VarValidator, validate_request, validate_id}
use route_planner.Places.{
  Done, updated, deleted, get_by_id, update, delete_by_id, lookup_failed, with_id,
  get_by_id_handler, delete_by_id_handler, update_valid, update_parsed, update_handler,
}

-- The answer to a failed lookup is not one of success.
lookup_failed-ne-json :
    {A : Type 0} (e : GoError) (code : ℕ) (a : A) → lookup_failed e ≢ json code a
unfolding lookup_failed
lookup_failed-ne-json e code a = ground arith

bad_request_err-ne-json :
    {A : Type 0} (e : GoError) (code : ℕ) (a : A) → bad_request_err e ≢ json code a
unfolding bad_request_err
bad_request_err-ne-json e code a h = cc

module _ {W : Type 0} (db : Table W Place) (queries : PlaceQueries W)
    {live : W → String → Option Place} (lawful : IsTable db live) (ids : VarValidator) where
  abbrev repo : PlaceRepository W
  repo = place_repository db queries

  update_row :
      (id : String) (p : PlaceUpdateRequest) (w w' : W)
      → update repo id (some p) w ≡ (ok tt, w')
      → PlaceRows.update db queries id p w ≡ (ok tt, w')
  unfolding update
  update_row id p w w' h = elim (Bool-cases (str_eq id "")) [
    | inl blank ↦
        let refused : ◌≡◌ {A = Outcome (Unit {0}) × W} (err (sentinel invalid_place_data), w)
            (ok tt, w') =
          rw blank at h in
        cc
    | inr named ↦ rw named at h
  ]

  update_valid_lost :
      (updates : Validator PlaceUpdateRequest) (id : String) (p : PlaceUpdateRequest)
      (errors : Option (List (String × String))) (w w' : W)
      → update_valid repo ids updates id p errors w ≡ (ok (json 200 updated), w')
      → (other : String) → live w' other ≡ live w other
  unfolding send_validation_errors
  update_valid_lost updates id p (some errors) w w' h row_id = cc
  update_valid_lost updates id p none w w' h row_id =
      elim (respond-eq-ok (λ _. json 200 updated) lookup_failed (update repo id (some p)) w
        (json 200 updated) w' h) [
          | inl (unit, e, same) ↦
              let (row, was, kept) =
                RowLaws.update_lost db queries lawful id p w w' (update_row id p w w' e) in
              kept row_id
          | inr (e, failed, same) ↦ absurd (lookup_failed-ne-json e 200 updated (sym same))
        ]

  with_id_lost :
      (updates : Validator PlaceUpdateRequest) (body : Option PlaceUpdateRequest)
      (id : Outcome String) (w w' : W)
      → with_id repo ids id (update_parsed repo ids updates body) w ≡ (ok (json 200 updated), w')
      → (other : String) → live w' other ≡ live w other
  unfolding bad_request_err invalid_json
  with_id_lost updates body (err e) w w' h row_id = cc
  with_id_lost updates body panic w w' h row_id = cc
  with_id_lost updates none (ok id) w w' h row_id = cc
  with_id_lost updates (some p) (ok id) w w' h row_id =
      update_valid_lost updates id p (validate_request updates p) w w' h row_id

  -- Over the database, an update that the API answers with success has changed no row, whatever valid
  -- fields the body has.
  pub update_handler_lost :
      (updates : Validator PlaceUpdateRequest) (param : String) (body : Option PlaceUpdateRequest)
      (w w' : W)
      → update_handler repo ids updates param body w ≡ (ok (json 200 updated), w')
      → (other : String) → live w' other ≡ live w other
  unfolding update_handler
  update_handler_lost updates param body w w' h row_id =
      with_id_lost updates body (validate_id ids param) w w' h row_id

  get_by_id_row :
      (id : String) (p : Place) (w w' : W)
      → get_by_id repo id w ≡ (ok p, w')
      → PlaceRows.get_by_id db queries id w ≡ (ok p, w')
  unfolding get_by_id
  get_by_id_row id p w w' h = elim (Bool-cases (str_eq id "")) [
    | inl blank ↦
        let refused : ◌≡◌ {A = Outcome Place × W} (err (sentinel invalid_place_data), w)
            (ok p, w') =
          rw blank at h in
        cc
    | inr named ↦ rw named at h
  ]

  delete_row :
      (id : String) (w w' : W)
      → delete_by_id repo id w ≡ (ok tt, w')
      → PlaceRows.delete db queries id w ≡ (ok tt, w')
  unfolding delete_by_id
  delete_row id w w' h = elim (Bool-cases (str_eq id "")) [
    | inl blank ↦
        let refused : ◌≡◌ {A = Outcome (Unit {0}) × W} (err (sentinel invalid_place_data), w)
            (ok tt, w') =
          rw blank at h in
        cc
    | inr named ↦ rw named at h
  ]

  validated :
      (param : String)
      → (validate_id ids param ≡ ok param) ⊎ ((e : GoError) × (validate_id ids param ≡ err e))
  unfolding validate_id
  validated param = elim (Bool-cases (ids.var param "required,uuid")) [
    | inl good ↦ inl (rw good)
    | inr bad ↦ inr (other "ID must be a valid UUID", rw bad)
  ]

  not_found_again :
      (id : String) (w : W)
      → ((p : Place) → (PlaceRows.get_by_id db queries id w).0 ≢ ok p)
      → (p : Place) → (respond (get_by_id repo id) (json 200) lookup_failed w).0 ≢ ok (json 200 p)
  not_found_again id w gone p found =
      elim (respond-eq-ok (json 200) lookup_failed (get_by_id repo id) w (json 200 p) _
        (outcome_pair _ found)) [
          | inl (q, e, same) ↦ gone q (ap (λ r. r.0) (get_by_id_row id q w _ e))
          | inr (e, failed, same) ↦ lookup_failed-ne-json e 200 p (sym same)
        ]

  deleted_row :
      (id : String) (w w' : W)
      → respond (delete_by_id repo id) (λ _. json 200 deleted) lookup_failed w
        ≡ (ok (json 200 deleted), w')
      → PlaceRows.delete db queries id w ≡ (ok tt, w')
  deleted_row id w w' h =
      elim (respond-eq-ok (λ _. json 200 deleted) lookup_failed (delete_by_id repo id) w
        (json 200 deleted) w' h) [
          | inl (unit, e, same) ↦ delete_row id w w' e
          | inr (e, failed, same) ↦ absurd (lookup_failed-ne-json e 200 deleted (sym same))
        ]

  -- A place that the API has answered to have deleted is not found by the API again, and the delete
  -- has left every other place.
  pub delete_by_id_handler_gone :
      (param : String) (w w' : W)
      → delete_by_id_handler repo ids param w ≡ (ok (json 200 deleted), w')
      → ((p : Place) → (get_by_id_handler repo ids param w').0 ≢ ok (json 200 p))
        × ((other : String) → other ≢ param → live w' other ≡ live w other)
  unfolding delete_by_id_handler get_by_id_handler
  delete_by_id_handler_gone param w w' h = elim (validated param) [
    | inl valid ↦
        let row = deleted_row param w w' (rw valid at h) in
        let (was, gone, others) = RowLaws.delete_done db queries lawful param w w' row in
        (λ p found. not_found_again param w' gone p (rw valid at found), others)
    | inr (e, invalid) ↦
        let refused : ◌≡◌ {A = Outcome (Answer Done) × W} (ok (bad_request_err e), w)
            (ok (json 200 deleted), w') =
          rw invalid at h in
        absurd (bad_request_err-ne-json e 200 deleted (ok_injective _ _ (ap (λ r. r.0) refused)))
  ]
