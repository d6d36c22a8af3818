-- ===== src/Repository/Users/Laws.antt =====
-- internal/repository/postgresql_user_repository.go: what its callers rely on.
use route_planner.Prelude.{◌≡◌, refl, String, true}
use route_planner.Errors.{GoError, sentinel, user_not_found, record_not_found, errors_is}
use route_planner.Effects.{ok, err, ◌>>◌, pure}
use route_planner.Models.{User, UserUpdateRequest}
use route_planner.Repository.Gorm.{Table}
use route_planner.Repository.Users.{user_repository, get_by_id, get_by_email, create, update}

module _ {W : Type 0} (db : Table W User) where
  -- The insert's outcome is the database's.
  pub create-table : (u : User) (w : W) → (user_repository db).create u w ≡ db.create u w
  unfolding create
  create-table u w = refl

  -- An update of a user writes nothing.
  pub user_update_lost :
      (id : String) (u : UserUpdateRequest) (w : W)
      → update db id u w ≡ (get_by_id db id >> pure tt) w
  unfolding update
  user_update_lost id u w = refl

  -- An email that no row has is `ErrUserNotFound`.
  pub get_by_email_missing :
      (email : String) (e : GoError) (w w' : W)
      → db.first "email" email w ≡ (err e, w')
      → errors_is e record_not_found ≡ true
      → get_by_email db email w ≡ (err (sentinel user_not_found), w')
  unfolding get_by_email
  get_by_email_missing email e w w' failed missing = rw (failed, missing)

  -- A lookup by email gives the row that the query finds.
  pub get_by_email_found :
      (email : String) (u : User) (w w' : W)
      → db.first "email" email w ≡ (ok u, w')
      → get_by_email db email w ≡ (ok u, w')
  unfolding get_by_email
  get_by_email_found email u w w' found = rw found refl
