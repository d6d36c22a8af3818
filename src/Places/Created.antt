-- ===== src/Places/Created.antt =====
-- `Create` of internal/places/handlers.go over the database, and the requests after it.
pub mod Tests
use mathlib.Core.Path.{fun_ext}
use route_planner.Prelude.{◌≡◌, subst, String, false, Option, List}
use route_planner.Errors.{place_not_found}
use route_planner.Errors.Response.{json}
use route_planner.Effects.{ok}
use route_planner.Prelude.Text.{Text}
use route_planner.Models.{
  Location, Float64, location_value, Place, PlaceCreateRequest, PlaceUpdateRequest,
}
use route_planner.Repository.Gorm.{Table, IsTable, IsReporting, IsInserting}
use route_planner.Repository.Places as PlaceRows
use route_planner.Repository.Places.{PlaceQueries, place_repository}
use route_planner.Validation.{Validator, VarValidator}
use route_planner.Places.{create_handler}
use route_planner.Places.Creation.{create_handler_created}
use route_planner.Places.Requests.{endpoints, rules, place_requests-AreServed}
use route_planner.Api.{Request, Store, is_up, with_row}
use route_planner.Api.Runs.{AreServedFrom}

-- PostGIS keeps the point that the text denotes; the times and the rating may be rounded.
pub record IsKept (show_float : Float64 → Text) (point : Text → Location) (kept : Place → Place)
    : Type 0 where
  pub same :
      (p : Place)
      → ((kept p).location ≡ point (location_value show_float p.location))
        × ((kept p).id ≡ p.id)
        × ((kept p).name ≡ p.name)
        × ((kept p).tags ≡ p.tags)
        × ((kept p).description ≡ p.description)
        × ((kept p).address ≡ p.address)
        × ((kept p).created_by ≡ p.created_by)

module _ {W : Type 0} (db : Table W Place) (queries : PlaceQueries W) (ids : VarValidator)
    (creates : Validator PlaceCreateRequest) (updates : Validator PlaceUpdateRequest)
    (kept : Place → Place) (blank : ids.var "" "required,uuid" ≡ false)
    {live : W → Store Place} where
  created_rows :
      IsInserting db live (λ p. p.id) kept
      → (user : Option String) (body : Option PlaceCreateRequest) (p : Place) (w w' : W)
      → create_handler (place_repository db queries) creates user body w ≡ (ok (json 201 p), w')
      → live w' ≡ with_row p.id (kept p) (live w)
  unfolding PlaceRows.create
  created_rows inserting user body p w w' h =
      let (user_id, request, known, named, parsed, valid, stored) =
        create_handler_created (place_repository db queries) creates user body p w w' h in
      fun_ext (inserting.inserted _ p w w' stored)

  -- A place that the API has answered to have created is there: the lookups, updates and deletes that
  -- follow are answered as by a store that has, under the place's ID and beside the rows that were there
  -- before, the place as the database keeps it: with the coordinates that are read from the text that
  -- `Location.Value` writes of them, with six decimals, and with the texts, tags and creator of the answer.
  pub create_handler-AreServedFrom :
      IsTable db live
      → IsReporting db place_not_found
      → IsInserting db live (λ p. p.id) kept
      → (show_float : Float64 → Text) (point : Text → Location) → IsKept show_float point kept
      → (user : Option String) (body : Option PlaceCreateRequest) (p : Place) (w w' : W)
      → create_handler (place_repository db queries) creates user body w ≡ (ok (json 201 p), w')
      → (rs : List (Request PlaceUpdateRequest))
      → (row : Place) × ((row.location ≡ point (location_value show_float p.location))
          × (row.id ≡ p.id)
          × (row.name ≡ p.name)
          × (row.tags ≡ p.tags)
          × (row.description ≡ p.description)
          × (row.address ≡ p.address)
          × (row.created_by ≡ p.created_by))
        × AreServedFrom
            (endpoints db queries ids updates)
            (is_up db)
            (rules db queries ids updates)
            live
            (with_row p.id row (live w))
            rs
            w'
  create_handler-AreServedFrom lawful reports inserting show_float point keeps user body p w w' h
        rs =
      (
        kept p,
        keeps.same p,
        subst
            (λ s.
              AreServedFrom (endpoints db queries ids updates) (is_up db)
                (rules db queries ids updates) live s rs w')
            (created_rows inserting user body p w w' h)
            (place_requests-AreServed db queries ids updates blank lawful reports rs w'),
      )
