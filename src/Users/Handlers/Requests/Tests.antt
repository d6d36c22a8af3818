-- ===== src/Users/Handlers/Requests/Tests.antt =====
-- Requests to the user endpoints over the table in memory.
use route_planner.Prelude.{◌≡◌, refl, not, none, some, List, [], ◌∷◌}
use route_planner.Prelude.Text.{str_eq}
use route_planner.Errors.{user_not_found, errors_is}
use route_planner.Errors.Response.{json, not_found}
use route_planner.Models.{User, UserUpdateRequest}
use route_planner.Repository.Gorm.Memory.{
  Rows, memory_table, live_rows, memory_table-IsTable, memory_table-IsReporting,
}
use route_planner.Validation.{Validator, VarValidator, validate_request}
use route_planner.Repository.Users as UserRows
use route_planner.Users.{get_by_id, update, delete_by_id}
use route_planner.Users.Handlers.{
  updated, deleted, get_by_id_handler, delete_by_id_handler, update_handler,
}
use route_planner.Users.Handlers.Requests.{endpoints, rules, user_requests-AreServed}
use route_planner.Api.{
  Request, look, change, drop, is_up, answered, shown, told, serve_requests, invalid_id,
}
use route_planner.Api.Runs.{AreServed, conditions}

abbrev ids : VarValidator
ids = record { var = λ id rule. not (str_eq id "") }

abbrev accepts : Validator UserUpdateRequest
accepts = record { struct = λ safe r. [] }

abbrev user : User
user = record {
  id = "1";
  name = "Olha";
  email = "o@x.ua";
  password_hash = "sunflower#";
  created_at = 0;
  updated_at = 0;
  deleted_at = none;
}

-- Every ID has this row.
abbrev full : Rows User
full id = some user

abbrev changes : UserUpdateRequest
changes = record { name = some "Iryna"; email = none }

abbrev requests : List (Request UserUpdateRequest)
requests = change "1" (some changes) ∷ look "1" ∷ drop "1" ∷ look "1" ∷ drop "" ∷ []

-- The user is still there after the update, and gone after the delete.
requests_answered :
    (serve_requests
      (rules memory_table ids accepts)
      (conditions (endpoints memory_table ids accepts) (is_up memory_table) requests full)
      full).0
    ≡ told (json 200 updated)
      ∷ shown (json 200 user)
      ∷ told (json 200 deleted)
      ∷ shown (not_found "User not found")
      ∷ told invalid_id
      ∷ []
unfolding endpoints rules validate_request get_by_id_handler delete_by_id_handler update_handler
    get_by_id update delete_by_id is_up answered errors_is UserRows.get_by_id UserRows.update
    UserRows.delete
requests_answered = refl

user_requests-AreServed_example :
    AreServed
      (endpoints memory_table ids accepts)
      (is_up memory_table)
      (rules memory_table ids accepts)
      live_rows
      requests
      full
user_requests-AreServed_example =
    user_requests-AreServed memory_table ids accepts refl memory_table-IsTable
      (memory_table-IsReporting user_not_found refl) requests full
