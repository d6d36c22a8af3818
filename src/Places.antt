-- ===== src/Places.antt =====
-- internal/places: service.go and handlers.go. A nil request is `none`, and so is a body that does
-- not parse.
pub mod Created
pub mod Creation
pub mod Requests
pub mod Rows
pub mod Tests
use route_planner.Prelude.{String, Bool, true, false, ◌||◌, Option, none, some, List, if◌then◌else◌}
use route_planner.Prelude.Text.{str_eq}
use route_planner.Errors.{GoError, sentinel, invalid_place_data, place_not_found, errors_is}
use route_planner.Errors.Response.{
  Answer, json, bad_request_err, not_found, internal_error, invalid_json, send_validation_errors,
  unauthorized_answer,
}
use route_planner.Effects.{Outcome, ok, err, panic, Eff, pure, throw, crash, lift, handle, respond}
use route_planner.Models.{Place, PlaceCreateRequest, PlaceUpdateRequest}
use route_planner.Repository.{PlaceRepository}
use route_planner.Validation.{Validator, VarValidator, validate_request, validate_id}

-- The row that a request makes; the database fills in the ID and the times, which are zero here.
abbrev pub new_place : PlaceCreateRequest → String → Place
new_place p user_id = record {
  id = "";
  name = p.name;
  tags = p.tags;
  description = p.description;
  location = p.location;
  address = p.address;
  rating = p.rating;
  created_by = user_id;
  created_at = 0;
  updated_at = 0;
  deleted_at = none;
}

module _ {W : Type 0} (repo : PlaceRepository W) where
  pub get_by_id : String → Eff W Place
  get_by_id id = if str_eq id "" then throw (sentinel invalid_place_data) else repo.get_by_id id

  pub create : Option PlaceCreateRequest → String → Eff W Place
  create none user_id = throw (sentinel invalid_place_data)
  create (some p) user_id =
      if str_eq p.name ""
      then throw (sentinel invalid_place_data)
      else repo.create (new_place p user_id)

  pub update : String → Option PlaceUpdateRequest → Eff W (Unit {0})
  update id none = throw (sentinel invalid_place_data)
  update id (some p) =
      if str_eq id "" then throw (sentinel invalid_place_data) else repo.update id p

  pub delete_by_id : String → Eff W (Unit {0})
  delete_by_id id = if str_eq id "" then throw (sentinel invalid_place_data) else repo.delete id

-- The answers to an error of the service.
lookup_failed : {A : Type 0} → GoError → Answer A
unfolding errors_is not_found internal_error
lookup_failed e =
    if errors_is e place_not_found then not_found "Place not found" else internal_error e

-- The body of the answers to an update and a delete.
pub data Done : Type 0 where
  updated deleted : Done

module _ {W : Type 0} (repo : PlaceRepository W) (ids : VarValidator) where
  -- What a handler does with an ID that is valid, and the answer to one that is not.
  abbrev with_id : {A : Type 0} → Outcome String → (String → Eff W (Answer A)) → Eff W (Answer A)
  with_id (ok id) go = go id
  with_id (err e) go = pure (bad_request_err e)
  with_id panic go = crash

  -- GET /places/{id}
  pub get_by_id_handler : String → Eff W (Answer Place)
  unfolding get_by_id lookup_failed validate_id bad_request_err
  get_by_id_handler param =
      with_id (validate_id ids param) λ id. respond (get_by_id repo id) (json 200) lookup_failed

  -- DELETE /places/{id}
  pub delete_by_id_handler : String → Eff W (Answer Done)
  unfolding delete_by_id lookup_failed validate_id bad_request_err
  delete_by_id_handler param =
      with_id (validate_id ids param)
        λ id. respond (delete_by_id repo id) (λ _. json 200 deleted) lookup_failed

  module _ (updates : Validator PlaceUpdateRequest) where
    abbrev update_valid :
        String → PlaceUpdateRequest → Option (List (String × String)) → Eff W (Answer Done)
    update_valid id p (some errors) = pure (send_validation_errors errors)
    update_valid id p none = respond (update repo id (some p)) (λ _. json 200 updated) lookup_failed

    abbrev update_parsed : Option PlaceUpdateRequest → String → Eff W (Answer Done)
    update_parsed none id = pure invalid_json
    update_parsed (some p) id = update_valid id p (validate_request updates p)

    -- PATCH /places/{id}
    pub update_handler : String → Option PlaceUpdateRequest → Eff W (Answer Done)
    unfolding update lookup_failed validate_id validate_request bad_request_err invalid_json
        send_validation_errors
    update_handler param body = with_id (validate_id ids param) (update_parsed body)

module _ {W : Type 0} (repo : PlaceRepository W) (creates : Validator PlaceCreateRequest) where
  abbrev create_valid :
      String → PlaceCreateRequest → Option (List (String × String)) → Eff W (Answer Place)
  create_valid user_id p (some errors) = pure (send_validation_errors errors)
  create_valid user_id p none = respond (create repo (some p) user_id) (json 201) bad_request_err

  abbrev create_parsed : String → Option PlaceCreateRequest → Eff W (Answer Place)
  create_parsed user_id none = pure invalid_json
  create_parsed user_id (some p) = create_valid user_id p (validate_request creates p)

  -- POST /places; the first argument is `c.Locals("user_id")`, if it is a string.
  pub create_handler : Option String → Option PlaceCreateRequest → Eff W (Answer Place)
  unfolding create validate_request invalid_json send_validation_errors bad_request_err
      unauthorized_answer
  create_handler none body = pure (unauthorized_answer "Authentication required")
  create_handler (some user_id) body =
      if str_eq user_id ""
      then pure (unauthorized_answer "Authentication required")
      else create_parsed user_id body
