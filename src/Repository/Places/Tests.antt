-- ===== src/Repository/Places/Tests.antt =====
-- The place repository over the table in memory.
use route_planner.Prelude.{◌≡◌, refl, none, some, []}
use route_planner.Effects.{ok, pure}
use route_planner.Models.{Place, PlaceUpdateRequest}
use route_planner.Repository.Gorm.Memory.{Rows, memory_table, without}
use route_planner.Repository.Places.{PlaceQueries, get_by_id, update, delete}

abbrev pub queries : PlaceQueries (Rows Place)
queries = record {
  by_tags = λ tags. pure [];
  by_tags_within = λ tags from radius. pure [];
  distinct_tags = pure [];
}

abbrev pub place : Place
place = record {
  id = "1";
  name = "Cafe";
  tags = [];
  description = "d";
  location = record { latitude = 0; longitude = 0 };
  address = "a";
  rating = 0;
  created_by = "u";
  created_at = 0;
  updated_at = 0;
  deleted_at = none;
}

-- Every ID has this row.
abbrev pub full : Rows Place
full id = some place

abbrev pub changes : PlaceUpdateRequest
changes = record {
  name = some "Bar";
  description = none;
  location = none;
  address = none;
  rating = none;
}

pub place_updated : update memory_table queries "1" changes full ≡ (ok tt, full)
unfolding update get_by_id
place_updated = refl

pub place_deleted : delete memory_table queries "1" full ≡ (ok tt, without "1" full)
unfolding delete
place_deleted = refl
