-- ===== src/Users/Handlers/Requests.antt =====
-- The user endpoints over the database: internal/users/handlers.go with service.go and
-- internal/repository/postgresql_user_repository.go, against a store of rows.
use text.Mathlib.TextEquality.{eq_iff}
pub mod Tests
use route_planner.Prelude.{
  ◌≡◌, refl, ap, sym, subst, ◌∙◌, true-false, inl, inr, String, Bool, true, false, Option, none,
  some, List, Bool-cases, Option-cases,
}
use route_planner.Prelude.Text.{str_eq}
use route_planner.Errors.{user_not_found, errors_is}
use route_planner.Errors.Response.{
  Answer, json, send_validation_errors, invalid_json, bad_request_err, not_found, internal_error,
}
use route_planner.Effects.{ok, pure, respond}
use route_planner.Models.{User, UserUpdateRequest}
use route_planner.Repository.Gorm.{Table, IsTable, IsReporting}
use route_planner.Repository.Users as UserRows
use route_planner.Repository.Users.{user_repository}
use route_planner.Validation.{Validator, VarValidator, validate_request, validate_id}
use route_planner.Users.{get_by_id, update, delete_by_id}
use route_planner.Users.Handlers.{
  Done, updated, deleted, get_by_id_handler, delete_by_id_handler, update_handler, lookup_failed,
}
use route_planner.Api.{Request, look, change, drop, Endpoints, Rules, Store, is_up}
use route_planner.Api.Bodies.{not_blank, body_refused, fit_body, unfit_body}
use route_planner.Api.Rows.{lookup, lookup_only, delete_row, failure_answer}
use route_planner.Api.Served.{IsRowEndpoints, request-Handled}
use route_planner.Api.Runs.{AreServed, handle_requests-AreServed}

module _ {W : Type 0} (db : Table W User) (ids : VarValidator)
    (updates : Validator UserUpdateRequest) where
  abbrev pub endpoints : Endpoints W User UserUpdateRequest Done
  unfolding get_by_id_handler update_handler delete_by_id_handler
  endpoints = record {
    look = get_by_id_handler (user_repository db) ids;
    change = update_handler (user_repository db) ids updates;
    drop = delete_by_id_handler (user_repository db) ids;
  }

  abbrev pub rules : Rules UserUpdateRequest Done
  unfolding validate_request send_validation_errors invalid_json
  rules = record {
    valid = λ id. ids.var id "required,uuid";
    body_refused = body_refused Done updates;
    missing = "User not found";
    changed = updated;
    dropped = deleted;
  }

  module _ (blank : ids.var "" "required,uuid" ≡ false) where
    update_body :
        (id : String) (body : Option UserUpdateRequest)
        → ids.var id "required,uuid" ≡ true
        → body_refused Done updates body ≡ none
        → update_handler (user_repository db) ids updates id body
          ≡ respond
              (lookup_only db user_not_found id)
              (λ _. json 200 updated)
              (failure_answer user_not_found "User not found")
    unfolding update_handler update UserRows.update lookup_failed validate_id
    update_body id body valid fits =
        let (u, parsed, no_errors) = fit_body Done updates body fits in
        rw (parsed, valid, no_errors, not_blank ids id blank valid) refl

    update_refused :
        (id : String) (body : Option UserUpdateRequest) (answer : Answer Done)
        → ids.var id "required,uuid" ≡ true
        → body_refused Done updates body ≡ some answer
        → update_handler (user_repository db) ids updates id body ≡ pure answer
    unfolding update_handler validate_id
    update_refused id body answer valid refused =
        elim (unfit_body Done updates body answer refused) [
          | inl (unparsed, same) ↦ rw (unparsed, valid, same) refl
          | inr (u, errors, parsed, e, same) ↦ rw (parsed, valid, e, same) refl
        ]

    endpoints-IsRowEndpoints : IsRowEndpoints db user_not_found endpoints rules
    unfolding get_by_id_handler get_by_id UserRows.get_by_id lookup_failed validate_id endpoints
        rules update_handler delete_by_id_handler delete_by_id UserRows.delete
    endpoints-IsRowEndpoints = record {
      look_valid = λ id valid. rw (valid, not_blank ids id blank valid) refl;
      look_invalid = λ id invalid. rw invalid refl;
      change_valid = update_body;
      change_refused = update_refused;
      change_invalid = λ id body invalid. rw invalid refl;
      drop_valid = λ id valid. rw (valid, not_blank ids id blank valid) refl;
      drop_invalid = λ id invalid. rw invalid refl;
    }

    -- Any sequence of lookups, updates and deletes of users is answered as by a store of rows that gives
    -- out the row of an ID, removes it on a delete and changes nothing on an update, and the database
    -- has afterwards the rows that the store has. An ID or a body that the validation rejects gets 400,
    -- a row that is not there 404, and a query that the database fails 500, without a change. The
    -- validation is to reject the empty ID, and the database to report errors that are not the program's.
    pub user_requests-AreServed :
        {live : W → Store User}
        → IsTable db live
        → IsReporting db user_not_found
        → (rs : List (Request UserUpdateRequest)) (w : W)
        → AreServed endpoints (is_up db) rules live rs w
    user_requests-AreServed lawful reports rs w =
        handle_requests-AreServed endpoints (is_up db) rules _
          (request-Handled endpoints-IsRowEndpoints lawful reports) rs w
