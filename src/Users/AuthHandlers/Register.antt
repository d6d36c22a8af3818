-- ===== src/Users/AuthHandlers/Register.antt =====
-- `Create` of the user service and `Register` of internal/users/auth_handler.go.
use route_planner.Prelude.{
  ◌≡◌, refl, ap, subst, ◌||◌, inl, inr, String, Bool, true, false, Option, none, some, List,
  Bool-cases,
}
use route_planner.Prelude.Text.{str_eq}
use route_planner.Errors.{
  GoError, sentinel, invalid_user_data, internal_server, conflict, errors_is, error_text,
}
use route_planner.Errors.Response.{Answer, json, send_error, internal_error, send_validation_errors}
use route_planner.Effects.{Outcome, ok, err, panic, resume, throw, pure, ok_injective}
use route_planner.Models.{User, UserCreateRequest, AuthResponse}
use route_planner.Repository.{UserRepository}
use route_planner.Validation.{Validator, validate_request}
use route_planner.Auth.{JwtLib, JwtService, generate_token}
use route_planner.Users.{Bcrypt, new_user, create}
use route_planner.Users.AuthHandlers.{answer_with_token, register_failed, register_valid, register}
use route_planner.Users.AuthHandlers.Token.{answer_with_token-eq-json}

-- Do the name, the email and the password have a character?
abbrev pub IsFilled : UserCreateRequest → Type 0
IsFilled u =
    (str_eq u.name "" ≡ false) × (str_eq u.email "" ≡ false) × (str_eq u.password "" ≡ false)

module _ {W : Type 0} (repo : UserRepository W) (bcrypt : Bcrypt W) where
  hashed :
      (u : UserCreateRequest) (o : Outcome String × W) (user : User) (w' : W)
      → resume o (λ hash. repo.create (new_user u hash)) (λ _. throw (sentinel internal_server))
        ≡ (ok user, w')
      → (hash : String) × (v : W) × (o ≡ (ok hash, v))
        × (repo.create (new_user u hash) v ≡ (ok user, w'))
  hashed u (ok hash, v) user w' h = (hash, v, refl, h)
  hashed u (err e, v) user w' h = cc
  hashed u (panic, v) user w' h = cc

  -- A user is only ever stored with the hash that bcrypt made of the password, never with the password
  -- itself.
  pub create_hashed :
      (u : UserCreateRequest) (user : User) (w w' : W)
      → create repo bcrypt (some u) w ≡ (ok user, w')
      → (hash : String) × (v : W) × (bcrypt.generate u.password w ≡ (ok hash, v))
        × (repo.create (new_user u hash) v ≡ (ok user, w'))
  unfolding create
  create_hashed u user w w' h =
      elim (Bool-cases (str_eq u.name "" || (str_eq u.email "" || str_eq u.password ""))) [
        | inl missing ↦
            let refused : ◌≡◌ {A = Outcome User × W} (err (sentinel invalid_user_data), w)
                (ok user, w') =
              rw missing at h in
            cc
        | inr filled ↦ hashed u (bcrypt.generate u.password w) user w' (rw filled at h)
      ]

any_blank : (a b c : Bool) → (a || (b || c)) ≡ false → (b ≡ false) × (c ≡ false)
any_blank true b c h = cc
any_blank false true c h = cc
any_blank false false c h = (refl, h)

register_failed-ne-json : (e : GoError) (r : AuthResponse) → register_failed e ≡ json 201 r → ⊥
unfolding register_failed send_error internal_error
register_failed-ne-json e r h = elim (Bool-cases (errors_is e conflict)) [
  | inl taken ↦
      let bad : ◌≡◌ {A = Answer AuthResponse} (send_error 409 (error_text e)) (json 201 r) =
        rw taken at h in
      cc
  | inr failed ↦
      let bad : ◌≡◌ {A = Answer AuthResponse} (internal_error e) (json 201 r) = rw failed at h in cc
]

module _ {W : Type 0} (repo : UserRepository W) (bcrypt : Bcrypt W) (lib : JwtLib W)
    (jwt : JwtService) (registers : Validator UserCreateRequest) where
  created_then :
      (req : UserCreateRequest) (r : AuthResponse) (o : Outcome User × W) (w' : W)
      → resume o (answer_with_token repo bcrypt lib jwt 201) (λ e. pure (register_failed e))
        ≡ (ok (json 201 r), w')
      → (u : User) × (v : W) × (o ≡ (ok u, v))
        × (answer_with_token repo bcrypt lib jwt 201 u v ≡ (ok (json 201 r), w'))
  created_then req r (ok u, v) w' h = (u, v, refl, h)
  created_then req r (err e, v) w' h =
      absurd (register_failed-ne-json e r (ok_injective _ _ (ap (λ t. t.0) h)))
  created_then req r (panic, v) w' h = cc

  register_valid_parts :
      (req : UserCreateRequest) (errors : Option (List (String × String))) (r : AuthResponse)
      (w w' : W)
      → register_valid repo bcrypt lib jwt registers req errors w ≡ (ok (json 201 r), w')
      → (v : W) × (create repo bcrypt (some req) w ≡ (ok r.user, v))
        × (generate_token lib jwt r.user.id v ≡ (ok r.token, w'))
  unfolding send_validation_errors
  register_valid_parts req (some errors) r w w' h = cc
  register_valid_parts req none r w w' h =
      let (u, v, stored, answered) = created_then req r (create repo bcrypt (some req) w) w' h in
      let (whose, made) = answer_with_token-eq-json repo bcrypt lib jwt 201 u r v w' answered in
      (v, subst (λ x. create repo bcrypt (some req) w ≡ (ok x, v)) whose stored, made)

  pub register_parts :
      (req : UserCreateRequest) (r : AuthResponse) (w w' : W)
      → register repo bcrypt lib jwt registers (some req) w ≡ (ok (json 201 r), w')
      → (v : W) × (create repo bcrypt (some req) w ≡ (ok r.user, v))
        × (generate_token lib jwt r.user.id v ≡ (ok r.token, w'))
  unfolding register
  register_parts req r w w' h = register_valid_parts req (validate_request registers req) r w w' h

  -- A user that was created has an email and a password.
  pub create_filled :
      (req : UserCreateRequest) (u : User) (w w' : W)
      → create repo bcrypt (some req) w ≡ (ok u, w')
      → (str_eq req.email "" ≡ false) × (str_eq req.password "" ≡ false)
  unfolding create
  create_filled req u w w' h =
      elim (Bool-cases (str_eq req.name "" || (str_eq req.email "" || str_eq req.password ""))) [
        | inl missing ↦
            let refused : ◌≡◌ {A = Outcome User × W} (err (sentinel invalid_user_data), w)
                (ok u, w') =
              rw missing at h in
            cc
        | inr filled ↦ any_blank _ _ _ filled
      ]
