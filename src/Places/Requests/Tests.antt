-- ===== src/Places/Requests/Tests.antt =====
-- Requests to the place endpoints over the table in memory.
use route_planner.Prelude.{◌≡◌, refl, not, some, List, [], ◌∷◌}
use route_planner.Prelude.Text.{str_eq}
use route_planner.Errors.{place_not_found, errors_is}
use route_planner.Errors.Response.{json, not_found}
use route_planner.Models.{PlaceUpdateRequest}
use route_planner.Repository.Gorm.Memory.{
  memory_table, live_rows, memory_table-IsTable, memory_table-IsReporting,
}
use route_planner.Repository.Places.Tests.{queries, full, changes, place}
use route_planner.Validation.{Validator, VarValidator, validate_request}
use route_planner.Repository.Places as PlaceRows
use route_planner.Places.{
  updated, deleted, get_by_id_handler, delete_by_id_handler, update_handler, get_by_id, update,
  delete_by_id,
}
use route_planner.Places.Requests.{endpoints, rules, place_requests-AreServed}
use route_planner.Api.{
  Request, look, change, drop, is_up, answered, shown, told, serve_requests, invalid_id,
}
use route_planner.Api.Runs.{AreServed, conditions}

abbrev pub ids : VarValidator
ids = record { var = λ id rule. not (str_eq id "") }

abbrev accepts : Validator PlaceUpdateRequest
accepts = record { struct = λ safe r. [] }

abbrev requests : List (Request PlaceUpdateRequest)
requests = change "1" (some changes) ∷ look "1" ∷ drop "1" ∷ look "1" ∷ drop "" ∷ []

-- The place is still there after the update, and gone after the delete.
requests_answered :
    (serve_requests
      (rules memory_table queries ids accepts)
      (conditions (endpoints memory_table queries ids accepts) (is_up memory_table) requests full)
      full).0
    ≡ told (json 200 updated)
      ∷ shown (json 200 place)
      ∷ told (json 200 deleted)
      ∷ shown (not_found "Place not found")
      ∷ told invalid_id
      ∷ []
unfolding endpoints rules validate_request get_by_id_handler delete_by_id_handler update_handler
    get_by_id update delete_by_id is_up answered errors_is PlaceRows.get_by_id PlaceRows.update
    PlaceRows.delete
requests_answered = refl

place_requests-AreServed_example :
    AreServed
      (endpoints memory_table queries ids accepts)
      (is_up memory_table)
      (rules memory_table queries ids accepts)
      live_rows
      requests
      full
place_requests-AreServed_example =
    place_requests-AreServed memory_table queries ids accepts refl memory_table-IsTable
      (memory_table-IsReporting place_not_found refl) requests full
