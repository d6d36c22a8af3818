-- ===== src/Users/AuthHandlers/Tests.antt =====
-- Logins and registrations with a store of one user, and a bcrypt that appends a mark.
use route_planner.Prelude.{
  ◌≡◌, ◌≢◌, ap, subst, refl, ◌<>◌, String, Bool, true, false, none, some, [],
}
use route_planner.Prelude.Text.{codes, str_eq}
use route_planner.Prelude.Int.{pos}
use route_planner.Errors.{
  GoError, other, sentinel, user_not_found, conflict, invalid_credentials, errors_is, error_text,
}
use route_planner.Errors.Response.{
  Answer, json, status, internal_error, send_error, unauthorized_answer,
}
use route_planner.Effects.{Outcome, ok, err, pure, throw}
use route_planner.Models.{User, UserCreateRequest, LoginRequest, AuthResponse}
use route_planner.Repository.{UserRepository}
use route_planner.Repository.Gorm.{Table}
use route_planner.Repository.Users.{user_repository}
use route_planner.Validation.{Validator, validate_request}
use route_planner.Auth.{JwtLib, JwtService, generate_token}
use route_planner.Users.{Bcrypt, new_user, get_by_email, create, validate_password}
use route_planner.Users.AuthHandlers.{login, login_failed, register, register_failed}
use route_planner.Users.AuthHandlers.Login.{IsLogin, login-IsLogin}
use route_planner.Users.AuthHandlers.Refusal.{Refusal, login_unauthorized}
use route_planner.Users.AuthHandlers.Conflict.{IsForeign, register_no_conflict}
use route_planner.Repository.Users.Laws.{create-table}

abbrev accepts : {R : Type 0} → Validator R
accepts = record { struct = λ safe r. [] }

abbrev bcrypt : Bcrypt (Unit {0})
bcrypt = record {
  generate = λ password. pure (password <> "#");
  matches = λ hash password. str_eq hash (password <> "#");
}

abbrev lib : JwtLib (Unit {0})
lib = record {
  now = pure (pos 0);
  numeric_date = λ t. t;
  sign = λ claims key. pure (codes "t");
  parse = λ token f. throw (other "parse");
}

abbrev jwt : JwtService
jwt = record { secret = codes "key"; expiration = pos 100 }

abbrev registration : UserCreateRequest
registration = record { name = "Olha"; email = "o@x.ua"; password = "sunflower" }

abbrev user : User
user = new_user registration "sunflower#"

abbrev by_email : Bool → Outcome User
by_email true = ok user
by_email false = err (sentinel user_not_found)

abbrev repo : UserRepository (Unit {0})
repo = record {
  get_by_id = λ id. throw (sentinel user_not_found);
  get_by_email = λ email w. (by_email (str_eq email user.email), w);
  create = λ u. pure u;
  update = λ id u. pure tt;
  delete = λ id. pure tt;
}

abbrev credentials : String → String → LoginRequest
credentials email password = record { email = email; password = password }

abbrev answer : AuthResponse
answer = record { token = codes "t"; user = user }

logged_in :
    login repo bcrypt lib jwt accepts (some (credentials "o@x.ua" "sunflower")) tt
    ≡ (ok (json 200 answer), tt)
unfolding login get_by_email validate_password validate_request generate_token
logged_in = refl

login-IsLogin_example :
    IsLogin repo bcrypt lib jwt accepts (some (credentials "o@x.ua" "sunflower")) answer tt tt
login-IsLogin_example =
    login-IsLogin repo bcrypt lib jwt accepts (some (credentials "o@x.ua" "sunflower")) answer tt tt
      logged_in

accepted : {R : Type 0} (r : R) → validate_request accepts r ≡ none
unfolding validate_request
accepted r = refl

refused :
    login repo bcrypt lib jwt accepts (some (credentials "p@x.ua" "rose")) tt
    ≡ (ok (unauthorized_answer (error_text (sentinel invalid_credentials))), tt)
unfolding login get_by_email validate_password validate_request login_failed errors_is
refused = refl

unauthorized_status :
    status {A = AuthResponse} (unauthorized_answer (error_text (sentinel invalid_credentials)))
    ≡ 401
unfolding unauthorized_answer send_error
unauthorized_status = refl

login_unauthorized_example :
    (req : LoginRequest) × (some (credentials "p@x.ua" "rose") ≡ some req)
    × (validate_request accepts req ≡ none)
    × Refusal repo bcrypt lib jwt accepts req tt tt
    × (◌≡◌ {A = Answer AuthResponse}
        (unauthorized_answer (error_text (sentinel invalid_credentials)))
        (unauthorized_answer (error_text (sentinel invalid_credentials))))
login_unauthorized_example =
    login_unauthorized repo bcrypt lib jwt accepts (some (credentials "p@x.ua" "rose"))
      (unauthorized_answer (error_text (sentinel invalid_credentials))) tt tt refused
      unauthorized_status

-- A table whose unique index refuses every row.
abbrev taken : GoError
taken = other "duplicate key value violates unique constraint"

abbrev refusing : Table (Unit {0}) User
refusing = record {
  first = λ column value. throw (sentinel user_not_found);
  create = λ u. throw taken;
  updates = λ id entries. pure 0;
  delete = λ id. pure 0;
}

taken_same : (e : GoError) → ◌≡◌ {A = Outcome User} (err taken) (err e) → taken ≡ e
taken_same e h = cc

taken_foreign :
    (e : GoError) → ◌≡◌ {A = Outcome User} (err taken) (err e) → errors_is e conflict ≡ false
unfolding errors_is
taken_foreign e h = subst (λ x. errors_is x conflict ≡ false) (taken_same e h) refl

refusing-IsForeign : IsForeign refusing
refusing-IsForeign = record { create_foreign = λ u w w' e h. taken_foreign e (ap (λ r. r.0) h) }

answered :
    register (user_repository refusing) bcrypt lib jwt accepts (some registration) tt
    ≡ (ok (internal_error taken), tt)
unfolding register create register_failed validate_request errors_is
answered = rw (create-table refusing user tt) refl

register_no_conflict_example : status {A = AuthResponse} (internal_error taken) ≢ 409
register_no_conflict_example =
    register_no_conflict refusing bcrypt lib jwt accepts refusing-IsForeign (some registration)
      (internal_error taken) tt tt answered
