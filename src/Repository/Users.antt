-- ===== src/Repository/Users.antt =====
-- internal/repository/postgresql_user_repository.go
pub mod Laws
use route_planner.Prelude.{
  ℕ, String, Bool, true, false, Option, none, some, List, [], ◌∷◌, ◌++◌, ◌==◌, if◌then◌else◌,
}
use route_planner.Errors.{GoError, sentinel, user_not_found, record_not_found, errors_is}
use route_planner.Effects.{Eff, pure, throw, handle, ◌>>=◌, ◌>>◌}
use route_planner.Models.{User, UserUpdateRequest}
use route_planner.Repository.{UserRepository}
use route_planner.Repository.Gorm.{Value, text, Table}

abbrev entry : String → Option String → List (String × Value)
entry name none = []
entry name (some a) = (name, text a) ∷ []

abbrev is_empty {ℓ} : {A : Type ℓ} → List A → Bool
is_empty [] = true
is_empty (_ ∷ _) = false

module _ {W : Type 0} (db : Table W User) where
  abbrev found_or_missing : GoError → Eff W User
  unfolding errors_is
  found_or_missing e =
      if errors_is e record_not_found then throw (sentinel user_not_found) else throw e

  unfoldable pub get_by_id : String → Eff W User
  unfolding errors_is
  get_by_id id = handle (db.first "id" id) pure found_or_missing

  pub get_by_email : String → Eff W User
  unfolding errors_is
  get_by_email email = handle (db.first "email" email) pure found_or_missing

  pub create : User → Eff W User
  create u = db.create u

  abbrev checked : ℕ → Eff W (Unit {0})
  checked rows = if rows == 0 then throw (sentinel user_not_found) else pure tt

  -- The test stands where the source has it: before any entry is made.
  unfoldable pub update : String → UserUpdateRequest → Eff W (Unit {0})
  unfolding get_by_id
  update id u =
      let updates : List (String × Value) = [] in
      if is_empty updates
      then get_by_id id >> pure tt
      else (db.updates id (updates ++ (entry "name" u.name ++ entry "email" u.email)) >>= checked)

  unfoldable pub delete : String → Eff W (Unit {0})
  delete id = db.delete id >>= checked

  -- The repository as the services see it.
  abbrev pub user_repository : UserRepository W
  user_repository = record {
    get_by_id = get_by_id;
    get_by_email = get_by_email;
    create = create;
    update = update;
    delete = delete;
  }
