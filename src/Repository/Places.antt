-- ===== src/Repository/Places.antt =====
-- internal/repository/postgresql_place_repository.go
pub mod Laws
pub mod Tests
use route_planner.Prelude.{
  ℕ, zero, suc, ◌+◌, String, Bool, true, false, ◌&&◌, ◌||◌, Option, none, some, List, [], ◌∷◌, ◌++◌,
  map, ◌==◌, if◌then◌else◌, any,
}
use route_planner.Prelude.Text.{str_eq}
use route_planner.Errors.{sentinel, place_not_found, record_not_found, errors_is}
use route_planner.Effects.{Eff, pure, throw, handle, ◌>>=◌, ◌>>◌}
use route_planner.Models.{Location, Float64, Place, PlaceUpdateRequest}
use route_planner.Repository.{PlaceRepository}
use route_planner.Repository.Gorm.{Value, text, point, number, Table}

-- A row of the two tag queries.
pub record ScoredResult : Type 0 where
  pub place : Place
  pub match_count : ℕ

-- The raw queries, which the database runs: by tags, by tags within a radius, and all tags.
pub record PlaceQueries (W : Type 0) : Type 0 where
  pub by_tags : List String → Eff W (List ScoredResult)
  pub by_tags_within : List String → Location → Float64 → Eff W (List ScoredResult)
  pub distinct_tags : Eff W (List String)

-- The entries that `Update` makes for the fields that are not nil.
abbrev entry {ℓ} : {A : Type ℓ} → String → (A → Value) → Option A → List (String × Value)
entry name wrap none = []
entry name wrap (some a) = (name, wrap a) ∷ []

update_entries : PlaceUpdateRequest → List (String × Value)
update_entries p =
    entry "name" text p.name
    ++ (entry "description" text p.description
        ++ (entry "location" point p.location
            ++ (entry "address" text p.address ++ entry "rating" number p.rating)))

abbrev is_empty {ℓ} : {A : Type ℓ} → List A → Bool
is_empty [] = true
is_empty (_ ∷ _) = false

module _ {W : Type 0} (db : Table W Place) (queries : PlaceQueries W) where
  unfoldable pub get_by_id : String → Eff W Place
  unfolding errors_is
  get_by_id id =
      handle (db.first "id" id) pure
        λ e. if errors_is e record_not_found then throw (sentinel place_not_found) else throw e

  abbrev places_of : List ScoredResult → List Place
  places_of res = map (λ item. item.place) res

  unfoldable pub get_by_tags : List String → Eff W (List Place)
  get_by_tags tags = handle (queries.by_tags tags) (λ res. pure (places_of res)) throw

  unfoldable pub get_all_tags : Eff W (List String)
  get_all_tags = handle queries.distinct_tags pure throw

  unfoldable pub find_optimal_places : List String → Location → Float64 → Eff W (List Place)
  find_optimal_places tags user_location radius =
      handle (queries.by_tags_within tags user_location radius) (λ res. pure (places_of res)) throw

  unfoldable pub create : Place → Eff W Place
  create p = db.create p

  -- A write that touched no row is an unknown id.
  abbrev checked : ℕ → Eff W (Unit {0})
  checked rows = if rows == 0 then throw (sentinel place_not_found) else pure tt

  -- The test stands where the source has it: before any entry is made.
  unfoldable pub update : String → PlaceUpdateRequest → Eff W (Unit {0})
  unfolding get_by_id update_entries
  update id p =
      let updates : List (String × Value) = [] in
      if is_empty updates
      then get_by_id id >> pure tt
      else (db.updates id (updates ++ update_entries p) >>= checked)

  unfoldable pub delete : String → Eff W (Unit {0})
  delete id = db.delete id >>= checked

  -- The repository as the services see it.
  abbrev pub place_repository : PlaceRepository W
  place_repository = record {
    get_by_id = get_by_id;
    get_by_tags = get_by_tags;
    get_all_tags = get_all_tags;
    find_optimal_places = find_optimal_places;
    create = create;
    update = update;
    delete = delete;
  }
