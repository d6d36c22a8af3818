-- ===== src/Users/AuthHandlers/Refusal.antt =====
-- The answer 401 of `Login` in internal/users/auth_handler.go.
use route_planner.Prelude.{
  ◌≡◌, refl, ◌⊎◌, inl, inr, String, true, false, Option, none, some, List, Bool-cases, arith,
}
use route_planner.Errors.{
  GoError, sentinel, user_not_found, invalid_credentials, errors_is, error_text,
}
use route_planner.Errors.Response.{
  Answer, status, internal_error, invalid_json, send_error, send_validation_errors, bad_request,
  unauthorized_answer,
}
use route_planner.Effects.{Outcome, ok, err, panic, resume, pure}
use route_planner.Models.{User, LoginRequest, AuthResponse}
use route_planner.Repository.{UserRepository}
use route_planner.Validation.{Validator, validate_request}
use route_planner.Auth.{JwtLib, JwtService, generate_token}
use route_planner.Users.{Bcrypt, get_by_email, validate_password}
use route_planner.Users.AuthHandlers.{login_failed, check_password, login_valid, login}
use route_planner.Users.AuthHandlers.Answers.{Given, given, weaken, token_answer}

module _ {W : Type 0} (repo : UserRepository W) (bcrypt : Bcrypt W) (lib : JwtLib W)
    (jwt : JwtService) (logins : Validator LoginRequest) where
  -- The email is unknown, or the password is not the user's.
  abbrev pub Refusal : LoginRequest → W → W → Type 0
  Refusal req w w' =
      ((e : GoError) × (get_by_email repo req.email w ≡ (err e, w'))
        × (errors_is e user_not_found ≡ true))
      ⊎ ((u : User) × (get_by_email repo req.email w ≡ (ok u, w'))
          × (validate_password bcrypt (some u) req.password ≡ false))

  -- What a refused login has in common.
  abbrev Refused : LoginRequest → W → Answer AuthResponse → W → Type 0
  Refused req w a w' =
      status a ≡ 401
      → Refusal req w w' × (a ≡ unauthorized_answer (error_text (sentinel invalid_credentials)))

  other_status :
      (req : LoginRequest) (w : W) (a : Answer AuthResponse) (w' : W)
      → (status a ≡ 200) ⊎ (status a ≡ 500)
      → Refused req w a w'
  other_status req w a w' (inl h) k = let bad : ⊥ = omega arith in absurd bad
  other_status req w a w' (inr h) k = let bad : ⊥ = omega arith in absurd bad

  looked_up :
      (req : LoginRequest) (w : W) (r : Outcome User × W)
      → get_by_email repo req.email w ≡ r
      → Given
          (Refused req w)
          (resume r (check_password repo bcrypt lib jwt logins req) (λ e. pure (login_failed e)))
  unfolding login_failed internal_error send_error
  looked_up req w (ok u, w') e =
      elim (Bool-cases (validate_password bcrypt (some u) req.password)) [
        | inl right ↦ rw right (
            token_answer (Refused req w) 200 u (generate_token lib jwt u.id w')
              (other_status req w))
        | inr wrong ↦ rw wrong λ _. (inr (u, e, wrong), refl)
      ]
  looked_up req w (err e, w') h = elim (Bool-cases (errors_is e user_not_found)) [
    | inl unknown ↦ rw unknown λ _. (inl (e, h, unknown), refl)
    | inr failed ↦ rw failed λ k. let bad : ⊥ = omega arith in absurd bad
  ]
  looked_up req w (panic, w') e = tt

  abbrev Explained : Option LoginRequest → W → Answer AuthResponse → W → Type 0
  Explained body w a w' =
      status a ≡ 401
      → (req : LoginRequest) × (body ≡ some req)
        × (validate_request logins req ≡ none)
        × Refusal req w w'
        × (a ≡ unauthorized_answer (error_text (sentinel invalid_credentials)))

  explained :
      (req : LoginRequest) (errors : Option (List (String × String))) (w : W)
      → validate_request logins req ≡ errors
      → Given (Explained (some req) w) (login_valid repo bcrypt lib jwt logins req errors w)
  unfolding send_validation_errors
  explained req (some errors) w h = λ k. let bad : ⊥ = omega arith in absurd bad
  explained req none w h =
      weaken (Refused req w) (Explained (some req) w) _
        (λ a w' refused k. let (why, same) = refused k in (req, refl, h, why, same))
        (looked_up req w (get_by_email repo req.email w) refl)

  login-Explained :
      (body : Option LoginRequest) (w : W)
      → Given (Explained body w) (login repo bcrypt lib jwt logins body w)
  unfolding login invalid_json bad_request send_error
  login-Explained none w = λ k. let bad : ⊥ = omega arith in absurd bad
  login-Explained (some req) w = explained req (validate_request logins req) w refl

  -- A login that is answered with 401 was a valid request whose email the lookup did not know or whose
  -- password was not the user's, and the answer is the same in the two cases.
  pub login_unauthorized :
      (body : Option LoginRequest) (a : Answer AuthResponse) (w w' : W)
      → login repo bcrypt lib jwt logins body w ≡ (ok a, w')
      → status a ≡ 401
      → (req : LoginRequest) × (body ≡ some req)
        × (validate_request logins req ≡ none)
        × Refusal req w w'
        × (a ≡ unauthorized_answer (error_text (sentinel invalid_credentials)))
  login_unauthorized body a w w' h =
      given (Explained body w) (login repo bcrypt lib jwt logins body w) a w' h
        (login-Explained body w)
