-- ===== src/Users/AuthHandlers.antt =====
-- internal/users/auth_handler.go. A body that does not parse is `none`.
pub mod Token
pub mod Login
pub mod Answers
pub mod Refusal
pub mod Conflict
pub mod Register
pub mod Session
pub mod Tests
use route_planner.Prelude.{String, Bool, Option, none, some, List, if◌then◌else◌}
use route_planner.Prelude.Text.{Text}
use route_planner.Errors.{
  GoError, sentinel, user_not_found, conflict, invalid_credentials, errors_is, error_text,
}
use route_planner.Errors.Response.{
  Answer, json, send_error, internal_error, invalid_json, send_validation_errors,
  unauthorized_answer,
}
use route_planner.Effects.{Eff, pure, handle, respond}
use route_planner.Models.{User, UserCreateRequest, LoginRequest, AuthResponse}
use route_planner.Repository.{UserRepository}
use route_planner.Validation.{Validator, validate_request}
use route_planner.Auth.{JwtLib, JwtService, generate_token}
use route_planner.Users.{Bcrypt, get_by_email, create, validate_password}

register_failed : GoError → Answer AuthResponse
unfolding errors_is error_text send_error internal_error
register_failed e = if errors_is e conflict then send_error 409 (error_text e) else internal_error e

login_failed : GoError → Answer AuthResponse
unfolding errors_is internal_error error_text unauthorized_answer
login_failed e =
    if errors_is e user_not_found
    then unauthorized_answer (error_text (sentinel invalid_credentials))
    else internal_error e

module _ {W : Type 0} (repo : UserRepository W) (bcrypt : Bcrypt W) (lib : JwtLib W)
    (jwt : JwtService) where
  -- The last part of both handlers: a token for the user.
  abbrev pub answer_with_token : Prim.Native.Nat.ℕ → User → Eff W (Answer AuthResponse)
  answer_with_token code user =
      respond (generate_token lib jwt user.id)
        (λ token. json code (record { token = token; user = user })) internal_error

  module _ (registers : Validator UserCreateRequest) where
    abbrev register_valid :
        UserCreateRequest → Option (List (String × String)) → Eff W (Answer AuthResponse)
    register_valid req (some errors) = pure (send_validation_errors errors)
    register_valid req none =
        handle (create repo bcrypt (some req)) (answer_with_token 201)
          (λ e. pure (register_failed e))

    pub register : Option UserCreateRequest → Eff W (Answer AuthResponse)
    unfolding create register_failed validate_request invalid_json send_validation_errors
        generate_token internal_error
    register none = pure invalid_json
    register (some req) = register_valid req (validate_request registers req)

  module _ (logins : Validator LoginRequest) where
    abbrev check_password : LoginRequest → User → Eff W (Answer AuthResponse)
    check_password req user =
        if validate_password bcrypt (some user) req.password
        then answer_with_token 200 user
        else pure (unauthorized_answer (error_text (sentinel invalid_credentials)))

    abbrev login_valid :
        LoginRequest → Option (List (String × String)) → Eff W (Answer AuthResponse)
    login_valid req (some errors) = pure (send_validation_errors errors)
    login_valid req none =
        handle (get_by_email repo req.email) (check_password req) (λ e. pure (login_failed e))

    pub login : Option LoginRequest → Eff W (Answer AuthResponse)
    unfolding get_by_email login_failed validate_password validate_request invalid_json
        send_validation_errors generate_token internal_error unauthorized_answer error_text
    login none = pure invalid_json
    login (some req) = login_valid req (validate_request logins req)
