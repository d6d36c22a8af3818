-- ===== src/Repository.antt =====
-- internal/repository/place_repository.go and user_repository.go: what the services ask of a
-- store. `create` returns the row that the pointer argument holds after the call.
pub mod Gorm
pub mod Places
pub mod Queries
pub mod Users
use route_planner.Prelude.{String, List}
use route_planner.Effects.{Eff}
use route_planner.Models.{Location, Float64, Place, PlaceUpdateRequest, User, UserUpdateRequest}

pub record PlaceRepository (W : Type 0) : Type 0 where
  pub get_by_id : String → Eff W Place
  pub get_by_tags : List String → Eff W (List Place)
  pub get_all_tags : Eff W (List String)
  pub find_optimal_places : List String → Location → Float64 → Eff W (List Place)
  pub create : Place → Eff W Place
  pub update : String → PlaceUpdateRequest → Eff W (Unit {0})
  pub delete : String → Eff W (Unit {0})

pub record UserRepository (W : Type 0) : Type 0 where
  pub get_by_id : String → Eff W User
  pub get_by_email : String → Eff W User
  pub create : User → Eff W User
  pub update : String → UserUpdateRequest → Eff W (Unit {0})
  pub delete : String → Eff W (Unit {0})
