-- ===== src/Places/Creation.antt =====
-- `Create` of internal/places/handlers.go.
use text.Mathlib.TextEquality.{eq_iff}
use route_planner.Prelude.{
  ◌≡◌, refl, subst, ◌≢◌, inl, inr, String, Option, none, some, List, Bool-cases,
}
use route_planner.Prelude.Text.{str_eq}
use route_planner.Errors.{sentinel, invalid_place_data}
use route_planner.Errors.Response.{
  json, bad_request_err, unauthorized_answer, send_validation_errors, invalid_json,
}
use route_planner.Effects.{ok, err}
use route_planner.Effects.Laws.{respond-eq-ok}
use route_planner.Models.{Place, PlaceCreateRequest}
use route_planner.Repository.{PlaceRepository}
use route_planner.Validation.{Validator, validate_request}
use route_planner.Places.{new_place, create, create_valid, create_parsed, create_handler}

module _ {W : Type 0} (repo : PlaceRepository W) (creates : Validator PlaceCreateRequest) where
  create_stored :
      (p : PlaceCreateRequest) (user_id : String) (place : Place) (w w' : W)
      → create repo (some p) user_id w ≡ (ok place, w')
      → repo.create (new_place p user_id) w ≡ (ok place, w')
  unfolding create
  create_stored p user_id place w w' h = elim (Bool-cases (str_eq p.name "")) [
    | inl unnamed ↦
        let refused : (err (sentinel invalid_place_data), w) ≡ (ok place, w') = rw unnamed at h in
        cc
    | inr named ↦ rw named at h
  ]

  create_valid_stored :
      (p : PlaceCreateRequest) (user_id : String) (errors : Option (List (String × String)))
      (place : Place) (w w' : W)
      → create_valid repo creates user_id p errors w ≡ (ok (json 201 place), w')
      → (errors ≡ none) × (repo.create (new_place p user_id) w ≡ (ok place, w'))
  unfolding bad_request_err send_validation_errors
  create_valid_stored p user_id (some errors) place w w' h = cc
  create_valid_stored p user_id none place w w' h =
      elim (respond-eq-ok (json 201) bad_request_err (create repo (some p) user_id) w
        (json 201 place) w' h) [
          | inl (stored, e, same) ↦
              let named : stored ≡ place = cc in
              (
                refl,
                create_stored p user_id place w w'
                    (subst (λ q. create repo (some p) user_id w ≡ (ok q, w')) named e),
              )
          | inr (e, failed, same) ↦ cc
        ]

  create_parsed_stored :
      (user_id : String) (body : Option PlaceCreateRequest) (place : Place) (w w' : W)
      → create_parsed repo creates user_id body w ≡ (ok (json 201 place), w')
      → (p : PlaceCreateRequest) × (body ≡ some p)
        × (validate_request creates p ≡ none)
        × (repo.create (new_place p user_id) w ≡ (ok place, w'))
  unfolding invalid_json
  create_parsed_stored user_id none place w w' h = cc
  create_parsed_stored user_id (some p) place w w' h =
      let (valid, stored) =
        create_valid_stored p user_id (validate_request creates p) place w w' h in
      (p, refl, valid, stored)

  pub create_handler_created :
      (user : Option String) (body : Option PlaceCreateRequest) (place : Place) (w w' : W)
      → create_handler repo creates user body w ≡ (ok (json 201 place), w')
      → (user_id : String) × (p : PlaceCreateRequest) × (user ≡ some user_id)
        × (user_id ≢ "")
        × (body ≡ some p)
        × (validate_request creates p ≡ none)
        × (repo.create (new_place p user_id) w ≡ (ok place, w'))
  unfolding create_handler
  create_handler_created none body place w w' h = cc
  create_handler_created (some user_id) body place w w' h = elim (Bool-cases (str_eq user_id "")) [
    | inl nobody ↦
        let refused : (ok (unauthorized_answer "Authentication required"), w)
            ≡ (ok (json 201 place), w') =
          rw nobody at h in
        cc
    | inr somebody ↦
        let (p, parsed, valid, stored) =
          create_parsed_stored user_id body place w w' (rw somebody at h) in
        (user_id, p, refl, (λ e. cc ((eq_iff user_id "").1 e)), parsed, valid, stored)
  ]
