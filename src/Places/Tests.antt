-- ===== src/Places/Tests.antt =====
-- The place endpoints over the table in memory, with a validator that accepts every ID and body.
use route_planner.Prelude.{◌≡◌, refl, true, some, []}
use route_planner.Errors.Response.{json}
use route_planner.Effects.{ok, pure, throw}
use route_planner.Errors.{sentinel, place_not_found}
use route_planner.Models.{Place, PlaceCreateRequest}
use route_planner.Repository.{PlaceRepository}
use route_planner.Repository.Gorm.Memory.{Rows, memory_table, without}
use route_planner.Repository.Places.{place_repository}
use route_planner.Repository.Places.Tests.{queries, full, changes, place_updated, place_deleted}
use route_planner.Validation.{Validator, VarValidator, validate_id, validate_request}
use route_planner.Places.{
  updated, deleted, delete_by_id, delete_by_id_handler, update, update_handler, create,
}

abbrev pub ids : VarValidator
ids = record { var = λ id rule. true }

abbrev pub accepts : {R : Type 0} → Validator R
accepts = record { struct = λ safe r. [] }

abbrev repo : PlaceRepository (Rows Place)
repo = place_repository memory_table queries

update_answered :
    update_handler repo ids accepts "1" (some changes) full ≡ (ok (json 200 updated), full)
unfolding update_handler update validate_id validate_request
update_answered = rw place_updated refl

delete_answered : delete_by_id_handler repo ids "1" full ≡ (ok (json 200 deleted), without "1" full)
unfolding delete_by_id_handler delete_by_id validate_id
delete_answered = rw place_deleted refl

-- A store that keeps nothing.
abbrev pub store : PlaceRepository (Unit {0})
store = record {
  get_by_id = λ id. throw (sentinel place_not_found);
  get_by_tags = λ tags. pure [];
  get_all_tags = pure [];
  find_optimal_places = λ tags from radius. pure [];
  create = λ p. pure p;
  update = λ id p. pure tt;
  delete = λ id. pure tt;
}

abbrev pub request : PlaceCreateRequest
request = record {
  name = "Cafe";
  tags = [];
  description = "d";
  location = record { latitude = 0; longitude = 0 };
  address = "a";
  rating = 0;
}
