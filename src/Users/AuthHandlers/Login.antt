-- ===== src/Users/AuthHandlers/Login.antt =====
-- `Login` of internal/users/auth_handler.go.
use route_planner.Prelude.{
  ◌≡◌, refl, ap, subst, ◌≢◌, inl, inr, String, true, Option, none, some, List, Bool-cases, arith,
}
use route_planner.Prelude.Text.{str_eq}
use route_planner.Errors.{
  GoError, sentinel, invalid_user_data, user_not_found, invalid_credentials, errors_is, error_text,
}
use route_planner.Errors.Response.{unauthorized_answer}
use route_planner.Errors.Response.{Answer, json, internal_error, send_validation_errors}
use route_planner.Effects.{Outcome, ok, err, panic, resume, pure, ok_injective}
use route_planner.Models.{User, LoginRequest, AuthResponse}
use route_planner.Repository.{UserRepository}
use route_planner.Validation.{Validator, validate_request}
use route_planner.Auth.{JwtLib, JwtService, generate_token}
use route_planner.Users.{Bcrypt, get_by_email, validate_password}
use route_planner.Users.AuthHandlers.Token.{answer_with_token-eq-json}
use route_planner.Users.AuthHandlers.{
  answer_with_token, login_failed, check_password, login_valid, login,
}

-- The answer to an unknown email and the one to a wrong password.
abbrev rejected : Answer AuthResponse
rejected = unauthorized_answer (error_text (sentinel invalid_credentials))

rejected-ne-json : (r : AuthResponse) → rejected ≢ json 200 r
unfolding unauthorized_answer error_text
rejected-ne-json r h = cc

login_failed-ne-json : (e : GoError) (r : AuthResponse) → login_failed e ≢ json 200 r
unfolding login_failed
login_failed-ne-json e r h = elim (Bool-cases (errors_is e user_not_found)) [
  | inl unknown ↦ absurd (rejected-ne-json r (rw unknown at h))
  | inr failed ↦
      let bad : ◌≡◌ {A = Answer AuthResponse} (internal_error e) (json 200 r) = rw failed at h in cc
]

module _ {W : Type 0} (repo : UserRepository W) (bcrypt : Bcrypt W) (lib : JwtLib W)
    (jwt : JwtService) (logins : Validator LoginRequest) where
  -- What a successful login has checked.
  pub record IsLogin (body : Option LoginRequest) (r : AuthResponse) (w w' : W) : Type 0 where
    pub req : LoginRequest
    pub found : W
    pub parsed : body ≡ some req
    pub valid : validate_request logins req ≡ none
    pub known : repo.get_by_email req.email w ≡ (ok r.user, found)
    pub password : bcrypt.matches r.user.password_hash req.password ≡ true
    pub token : generate_token lib jwt r.user.id found ≡ (ok r.token, w')

  email_row :
      (email : String) (u : User) (w w' : W)
      → get_by_email repo email w ≡ (ok u, w')
      → repo.get_by_email email w ≡ (ok u, w')
  unfolding get_by_email
  email_row email u w w' h = elim (Bool-cases (str_eq email "")) [
    | inl blank ↦
        let refused : ◌≡◌ {A = Outcome User × W} (err (sentinel invalid_user_data), w) (ok u, w') =
          rw blank at h in
        cc
    | inr named ↦ rw named at h
  ]

  matched :
      (u : User) (password : String)
      → validate_password bcrypt (some u) password ≡ true
      → bcrypt.matches u.password_hash password ≡ true
  unfolding validate_password
  matched u password h = ground arith

  password_checked :
      (req : LoginRequest) (u : User) (r : AuthResponse) (w w' : W)
      → check_password repo bcrypt lib jwt logins req u w ≡ (ok (json 200 r), w')
      → (validate_password bcrypt (some u) req.password ≡ true)
        × (answer_with_token repo bcrypt lib jwt 200 u w ≡ (ok (json 200 r), w'))
  unfolding unauthorized_answer
  password_checked req u r w w' h =
      elim (Bool-cases (validate_password bcrypt (some u) req.password)) [
        | inl right ↦ (right, rw right at h)
        | inr wrong ↦
            let refused : ◌≡◌ {A = Outcome (Answer AuthResponse) × W} (ok rejected, w)
                (ok (json 200 r), w') =
              rw wrong at h in
            absurd (rejected-ne-json r (ok_injective _ _ (ap (λ t. t.0) refused)))
      ]

  user_found :
      (req : LoginRequest) (r : AuthResponse) (o : Outcome User × W) (w' : W)
      → resume o (check_password repo bcrypt lib jwt logins req) (λ e. pure (login_failed e))
        ≡ (ok (json 200 r), w')
      → (u : User) × (v : W) × (o ≡ (ok u, v))
        × (check_password repo bcrypt lib jwt logins req u v ≡ (ok (json 200 r), w'))
  user_found req r (ok u, v) w' h = (u, v, refl, h)
  user_found req r (err e, v) w' h =
      absurd (login_failed-ne-json e r (ok_injective _ _ (ap (λ t. t.0) h)))
  user_found req r (panic, v) w' h = cc

  valid-IsLogin :
      (req : LoginRequest) (r : AuthResponse) (errors : Option (List (String × String)))
      → validate_request logins req ≡ errors
      → (w w' : W) → login_valid repo bcrypt lib jwt logins req errors w ≡ (ok (json 200 r), w')
      → IsLogin (some req) r w w'
  unfolding send_validation_errors
  valid-IsLogin req r (some errors) e w w' h = cc
  valid-IsLogin req r none e w w' h =
      let (u, v, found, h₁) = user_found req r (get_by_email repo req.email w) w' h in
      let (right, h₂) = password_checked req u r v w' h₁ in
      let (whose, made) = answer_with_token-eq-json repo bcrypt lib jwt 200 u r v w' h₂ in
      record {
        req = req;
        found = v;
        parsed = refl;
        valid = e;
        known =
            subst (λ x. repo.get_by_email req.email w ≡ (ok x, v)) whose
              (email_row req.email u w v found);
        password =
            subst (λ x. bcrypt.matches x.password_hash req.password ≡ true) whose
              (matched u req.password right);
        token = made;
      }

  -- A login that is answered with a token has found the user of the given email, has had bcrypt
  -- compare the given password with the stored hash, and the token is one for that user's ID.
  pub login-IsLogin :
      (body : Option LoginRequest) (r : AuthResponse) (w w' : W)
      → login repo bcrypt lib jwt logins body w ≡ (ok (json 200 r), w')
      → IsLogin body r w w'
  unfolding login
  login-IsLogin none r w w' h = cc
  login-IsLogin (some req) r w w' h = valid-IsLogin req r (validate_request logins req) refl w w' h
