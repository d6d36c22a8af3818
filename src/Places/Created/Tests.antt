-- ===== src/Places/Created/Tests.antt =====
-- A place that is created in a table in memory, and requests for it.
use route_planner.Prelude.{◌≡◌, refl, sym, ap, none, some, List, [], ◌∷◌}
use route_planner.Errors.{place_not_found}
use route_planner.Errors.Response.{json}
use route_planner.Effects.{ok, ok_injective, Eff}
use route_planner.Models.{Location, Place, PlaceUpdateRequest}
use route_planner.Repository.Gorm.{IsInserting}
use route_planner.Repository.Gorm.Memory.{
  Rows, table_with, live_rows, table_with-IsTable, table_with-IsReporting,
}
use route_planner.Repository.Places as PlaceRows
use route_planner.Repository.Places.{place_repository}
use route_planner.Repository.Places.Tests.{queries}
use route_planner.Validation.{validate_request}
use route_planner.Places.{new_place, create, create_handler}
use route_planner.Places.Tests.{request, accepts}
use route_planner.Places.Requests.{endpoints, rules}
use route_planner.Places.Requests.Tests.{ids}
use route_planner.Places.Created.{IsKept, create_handler-AreServedFrom}
use route_planner.Api.{Request, look, drop, is_up, with_row}
use route_planner.Api.Runs.{AreServedFrom}

-- The row gets the ID "7".
abbrev stamped : Place → Place
stamped p = record p { id = "7" }

-- PostGIS in this database puts every point at the same place.
abbrev nowhere : Location
nowhere = record { latitude = 0; longitude = 0 }

abbrev kept : Place → Place
kept p = record p { location = nowhere }

abbrev insert : Place → Eff (Rows Place) Place
insert p w = (ok (stamped p), with_row "7" (kept (stamped p)) w)

insert-IsInserting : IsInserting (table_with insert) live_rows (λ p. p.id) kept
insert-IsInserting = record {
  inserted = λ r r' w w' h id.
      rw (sym (ok_injective (stamped r) r' (ap (λ t. t.0) h)), sym (ap (λ t. t.1) h)) refl;
}

kept-IsKept : IsKept (λ f. []) (λ text. nowhere) kept
kept-IsKept = record { same = λ p. (refl, refl, refl, refl, refl, refl, refl) }

abbrev no_rows : Rows Place
no_rows id = none

abbrev made : Place
made = stamped (new_place request "u")

created :
    create_handler
      (place_repository (table_with insert) queries)
      accepts
      (some "u")
      (some request)
      no_rows
    ≡ (ok (json 201 made), with_row "7" (kept made) no_rows)
unfolding create_handler create validate_request PlaceRows.create
created = refl

abbrev requests : List (Request PlaceUpdateRequest)
requests = look "7" ∷ drop "7" ∷ look "7" ∷ []

create_handler-AreServedFrom_example :
    (row : Place) × ((row.location ≡ nowhere)
      × (row.id ≡ made.id)
      × (row.name ≡ made.name)
      × (row.tags ≡ made.tags)
      × (row.description ≡ made.description)
      × (row.address ≡ made.address)
      × (row.created_by ≡ made.created_by))
    × AreServedFrom
        (endpoints (table_with insert) queries ids accepts)
        (is_up (table_with insert))
        (rules (table_with insert) queries ids accepts)
        live_rows
        (with_row "7" row no_rows)
        requests
        (with_row "7" (kept made) no_rows)
create_handler-AreServedFrom_example =
    create_handler-AreServedFrom (table_with insert) queries ids accepts accepts kept refl
      (table_with-IsTable insert) (table_with-IsReporting insert place_not_found refl)
      insert-IsInserting (λ f. []) (λ text. nowhere) kept-IsKept (some "u") (some request) made
      no_rows (with_row "7" (kept made) no_rows) created requests
