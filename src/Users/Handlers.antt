-- ===== src/Users/Handlers.antt =====
-- internal/users/handlers.go. A body that does not parse is `none`.
pub mod Requests
use route_planner.Prelude.{String, ◌||◌, Option, none, some, List, if◌then◌else◌}
use route_planner.Errors.{GoError, user_not_found, invalid_user_data, conflict, errors_is}
use route_planner.Errors.Response.{
  Answer, json, bad_request_err, not_found, internal_error, invalid_json, send_validation_errors,
}
use route_planner.Effects.{Outcome, ok, err, panic, Eff, pure, crash, respond}
use route_planner.Models.{User, UserCreateRequest, UserUpdateRequest}
use route_planner.Repository.{UserRepository}
use route_planner.Validation.{Validator, VarValidator, validate_request, validate_id}
use route_planner.Users.{Bcrypt, get_by_id, create, update, delete_by_id}

lookup_failed : {A : Type 0} → GoError → Answer A
unfolding errors_is not_found internal_error
lookup_failed e =
    if errors_is e user_not_found then not_found "User not found" else internal_error e

create_failed : GoError → Answer User
unfolding errors_is bad_request_err internal_error
create_failed e =
    if errors_is e invalid_user_data || errors_is e conflict
    then bad_request_err e
    else internal_error e

-- The body of the answers to an update and a delete.
pub data Done : Type 0 where
  updated deleted : Done

module _ {W : Type 0} (repo : UserRepository W) (ids : VarValidator) where
  abbrev with_id : {A : Type 0} → Outcome String → (String → Eff W (Answer A)) → Eff W (Answer A)
  with_id (ok id) go = go id
  with_id (err e) go = pure (bad_request_err e)
  with_id panic go = crash

  -- GET /users/{id}
  pub get_by_id_handler : String → Eff W (Answer User)
  unfolding get_by_id lookup_failed validate_id bad_request_err
  get_by_id_handler param =
      with_id (validate_id ids param) λ id. respond (get_by_id repo id) (json 200) lookup_failed

  -- DELETE /users/{id}
  pub delete_by_id_handler : String → Eff W (Answer Done)
  unfolding delete_by_id lookup_failed validate_id bad_request_err
  delete_by_id_handler param =
      with_id (validate_id ids param)
        λ id. respond (delete_by_id repo id) (λ _. json 200 deleted) lookup_failed

  module _ (updates : Validator UserUpdateRequest) where
    abbrev update_valid :
        String → UserUpdateRequest → Option (List (String × String)) → Eff W (Answer Done)
    update_valid id u (some errors) = pure (send_validation_errors errors)
    update_valid id u none = respond (update repo id (some u)) (λ _. json 200 updated) lookup_failed

    abbrev update_parsed : Option UserUpdateRequest → String → Eff W (Answer Done)
    update_parsed none id = pure invalid_json
    update_parsed (some u) id = update_valid id u (validate_request updates u)

    -- PATCH /users/{id}
    pub update_handler : String → Option UserUpdateRequest → Eff W (Answer Done)
    unfolding update lookup_failed validate_id validate_request bad_request_err invalid_json
        send_validation_errors
    update_handler param body = with_id (validate_id ids param) (update_parsed body)

module _ {W : Type 0} (repo : UserRepository W) (bcrypt : Bcrypt W)
    (creates : Validator UserCreateRequest) where
  abbrev create_valid : UserCreateRequest → Option (List (String × String)) → Eff W (Answer User)
  create_valid u (some errors) = pure (send_validation_errors errors)
  create_valid u none = respond (create repo bcrypt (some u)) (json 201) create_failed

  -- POST /users
  pub create_handler : Option UserCreateRequest → Eff W (Answer User)
  unfolding create create_failed validate_request invalid_json send_validation_errors
  create_handler none = pure invalid_json
  create_handler (some u) = create_valid u (validate_request creates u)
