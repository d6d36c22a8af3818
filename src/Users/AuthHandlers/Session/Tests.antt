-- ===== src/Users/AuthHandlers/Session/Tests.antt =====
-- A registration with a login after it, and a login with a request after it.
use text.Mathlib.TextEquality.{eq_iff}
use route_planner.Prelude.{
  ◌≡◌, refl, sym, ap, subst, ◌<>◌, ◌++◌, ◌∷◌, [], String, Option, none, some, if◌then◌else◌, arith,
}
use route_planner.Prelude.Text.{codes, str_eq}
use route_planner.Prelude.Int.{pos}
use route_planner.Errors.{other, sentinel, record_not_found, auth_invalid_token}
use route_planner.Errors.Response.{json}
use route_planner.Effects.{Outcome, ok, ok_injective, err, pure, throw}
use route_planner.Repository.Users.Laws.{create-table}
use route_planner.Models.{User, UserCreateRequest, LoginRequest, AuthResponse}
use route_planner.Repository.{UserRepository}
use route_planner.Repository.Gorm.{Table}
use route_planner.Repository.Users.{user_repository}
use route_planner.Validation.{Validator, validate_request}
use route_planner.Auth.{
  JwtLib, JwtService, new_jwt_service, jwt_middleware, generate_token, parse_token,
}
use route_planner.Auth.Lifetime.{IsDated, IsExpiring, generate_token_overflow}
use route_planner.Auth.Tests
use route_planner.Users.{Bcrypt, new_user, create, get_by_email, validate_password}
use route_planner.Users.AuthHandlers.{login, register}
use route_planner.Users.AuthHandlers.Session.{
  IsBcrypt, IsAccounts, login-register, jwt_middleware-login,
}

abbrev accepts : {R : Type 0} → Validator R
accepts = record { struct = λ safe r. [] }

accepted : {R : Type 0} (r : R) → validate_request accepts r ≡ none
unfolding validate_request
accepted r = refl

abbrev pub bcrypt : {W : Type 0} → Bcrypt W
bcrypt = record {
  generate = λ password. pure (password <> "#");
  matches = λ hash password. str_eq hash (password <> "#");
}

bcrypt-IsBcrypt : {W : Type 0} → IsBcrypt {W = W} bcrypt
bcrypt-IsBcrypt = record {
  matches_generated = λ password hash w w' h.
      (eq_iff hash (password <> "#")).1 (sym (ok_injective _ _ (ap (λ r. r.0) h)));
}

-- The world is the table, with one row at most.
abbrev by_email : Option User → String → Option User
by_email none email = none
by_email (some u) email = if str_eq u.email email then some u else none

abbrev found : Option User → Outcome User
found none = err (sentinel record_not_found)
found (some u) = ok u

-- The table keeps the times in other units.
abbrev rounded : User → User
rounded u = record {
  id = u.id;
  name = u.name;
  email = u.email;
  password_hash = u.password_hash;
  created_at = 1;
  updated_at = 1;
  deleted_at = none;
}

abbrev db : Table (Option User) User
db = record {
  first = λ column value w. (found (by_email w value), w);
  create = λ u w. (ok u, some (rounded u));
  updates = λ id entries. pure 0;
  delete = λ id. pure 0;
}

abbrev lib : JwtLib (Option User)
lib = record {
  now = pure (pos 0);
  numeric_date = λ t. t;
  sign = λ claims key. pure (codes "t");
  parse = λ token f. throw (other "parse");
}

abbrev jwt : JwtService
jwt = record { secret = codes "key"; expiration = pos 100 }

created_row :
    (u u' : User) (w w' : Option User)
    → db.create u w ≡ (ok u', w')
    → (stored : User) × (by_email w' u.email ≡ some stored)
      × (stored.id ≡ u'.id)
      × (stored.password_hash ≡ u.password_hash)
created_row u u' w w' h = (
  rounded u,
  subst (λ x. by_email x u.email ≡ some (rounded u)) (ap (λ r. r.1) h)
      (rw ((eq_iff u.email u.email).1 refl) refl),
  ap (λ x. x.id) (ok_injective u u' (ap (λ r. r.0) h)),
  refl,
)

accounts : IsAccounts db lib by_email
accounts = record {
  created = created_row;
  found = λ email u w h. rw h refl;
  now_keeps = λ w email. refl;
  sign_keeps = λ claims key w email. refl;
}

abbrev registration : UserCreateRequest
registration = record { name = "Olha"; email = "o@x.ua"; password = "sunflower" }

abbrev user : User
user = new_user registration "sunflower#"

abbrev answer : AuthResponse
answer = record { token = codes "t"; user = user }

abbrev credentials : LoginRequest
credentials = record { email = "o@x.ua"; password = "sunflower" }

registered :
    register (user_repository db) bcrypt lib jwt accepts (some registration) none
    ≡ (ok (json 201 answer), some (rounded user))
unfolding register create validate_request generate_token
registered = rw (create-table db user none) refl

signed_again :
    generate_token lib jwt user.id (some (rounded user)) ≡ (ok (codes "t"), some (rounded user))
unfolding generate_token
signed_again = refl

login-register_example :
    (stored : User) × (stored.id ≡ user.id)
    × (login (user_repository db) bcrypt lib jwt accepts (some credentials) (some (rounded user))
        ≡ (ok (json 200 (record { token = codes "t"; user = stored })), some (rounded user)))
login-register_example =
    login-register db bcrypt lib jwt accounts accepts accepts bcrypt-IsBcrypt registration answer
      (codes "t") none (some (rounded user)) (some (rounded user)) registered (accepted credentials)
      signed_again

-- The user whom the tokens of this library are for.
abbrev owner : User
owner = record {
  id = "u";
  name = "Olha";
  email = "o@x.ua";
  password_hash = "sunflower#";
  created_at = 0;
  updated_at = 0;
  deleted_at = none;
}

abbrev pub repo : UserRepository (Unit {0})
repo = record {
  get_by_id = λ id. pure owner;
  get_by_email = λ email. pure owner;
  create = λ u. pure u;
  update = λ id u. pure tt;
  delete = λ id. pure tt;
}

logged_in :
    login repo bcrypt Tests.lib Tests.service accepts (some credentials) tt
    ≡ (ok (json 200 (record { token = Tests.signed; user = owner })), tt)
unfolding login get_by_email validate_password validate_request generate_token
logged_in = refl

signing-IsDated : IsDated Tests.lib
signing-IsDated = record { cut_early = λ s t h. h; cut_late = λ s t h. h }

jwt_middleware-login_example :
    jwt_middleware Tests.lib Tests.service (codes "Bearer" ++ (b' ' ∷ Tests.signed)) Tests.greet tt
    ≡ Tests.greet "u" tt
jwt_middleware-login_example =
    jwt_middleware-login repo bcrypt Tests.lib Tests.service accepts Tests.Verifies Tests.lib-IsJwt
      signing-IsDated Tests.greet credentials (record { token = Tests.signed; user = owner }) owner
      (pos 0) (pos 0) (pos 0) (pos 0) tt tt tt tt tt tt tt tt logged_in refl refl refl refl
      (omega arith, tt) refl refl refl

lib-IsDated : IsDated lib
lib-IsDated = record { cut_early = λ s t h. h; cut_late = λ s t h. h }

-- This library parses no token at all.
lib-IsExpiring : IsExpiring lib
lib-IsExpiring = record {
  parse_expired = λ claims key token w w' v v' t f made clock late.
      (other "parse", rw (sym (ap (λ r. r.1) clock)) refl);
}

made_useless :
    generate_token lib (new_jwt_service (codes "key") (pos 3_000_000)) "u" none
    ≡ (ok (codes "t"), none)
unfolding generate_token
made_useless = refl

generate_token_overflow_example :
    parse_token lib (new_jwt_service (codes "key") (pos 3_000_000)) (codes "t") none
    ≡ (err (sentinel auth_invalid_token), none)
generate_token_overflow_example =
    generate_token_overflow lib lib-IsDated lib-IsExpiring (codes "key") 3_000_000 (omega arith)
      (omega arith) "u" (codes "t") (pos 0) (pos 0) none none none none none made_useless refl refl
      refl
