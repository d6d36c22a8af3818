-- ===== src/Users.antt =====
-- internal/users/service.go: the user service. A nil pointer is `none`.
pub mod Handlers
pub mod AuthHandlers
use route_planner.Prelude.{String, Bool, true, false, ◌||◌, Option, none, some, if◌then◌else◌}
use route_planner.Prelude.Text.{str_eq}
use route_planner.Errors.{sentinel, invalid_user_data, internal_server}
use route_planner.Effects.{Outcome, ok, err, Eff, pure, throw, handle, lift}
use route_planner.Models.{User, UserCreateRequest, UserUpdateRequest}
use route_planner.Repository.{UserRepository}

-- The bcrypt library: `GenerateFromPassword` draws a salt from the world, and
-- `CompareHashAndPassword` has a nil error or another one.
pub record Bcrypt (W : Type 0) : Type 0 where
  pub generate : String → Eff W String
  pub matches : String → String → Bool

-- The row that a request makes; the database fills in the rest.
abbrev pub new_user : UserCreateRequest → String → User
new_user u hashed_password = record {
  id = "";
  name = u.name;
  email = u.email;
  password_hash = hashed_password;
  created_at = 0;
  updated_at = 0;
  deleted_at = none;
}

module _ {W : Type 0} (repo : UserRepository W) where
  unfoldable pub get_by_id : String → Eff W User
  get_by_id id = if str_eq id "" then throw (sentinel invalid_user_data) else repo.get_by_id id

  unfoldable pub get_by_email : String → Eff W User
  get_by_email email =
      if str_eq email "" then throw (sentinel invalid_user_data) else repo.get_by_email email

  unfoldable pub update : String → Option UserUpdateRequest → Eff W (Unit {0})
  update id none = throw (sentinel invalid_user_data)
  update id (some u) = if str_eq id "" then throw (sentinel invalid_user_data) else repo.update id u

  unfoldable pub delete_by_id : String → Eff W (Unit {0})
  delete_by_id id = if str_eq id "" then throw (sentinel invalid_user_data) else repo.delete id

module _ {W : Type 0} (repo : UserRepository W) (bcrypt : Bcrypt W) where
  -- The error of the library is replaced.
  unfoldable pub create : Option UserCreateRequest → Eff W User
  create none = throw (sentinel invalid_user_data)
  create (some u) =
      if str_eq u.name "" || (str_eq u.email "" || str_eq u.password "")
      then throw (sentinel invalid_user_data)
      else handle (bcrypt.generate u.password)
          (λ hashed_password. repo.create (new_user u hashed_password))
          (λ _. throw (sentinel internal_server))

module _ {W : Type 0} (bcrypt : Bcrypt W) where
  unfoldable pub validate_password : Option User → String → Bool
  validate_password none password = false
  validate_password (some user) password =
      if str_eq password "" then false else bcrypt.matches user.password_hash password
