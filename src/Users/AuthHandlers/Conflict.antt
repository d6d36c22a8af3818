-- ===== src/Users/AuthHandlers/Conflict.antt =====
-- The answer 409 of `Register` in internal/users/auth_handler.go.
use route_planner.Prelude.{
  ◌≡◌, ◌≢◌, ◌∙◌, refl, ap, sym, subst, ◌||◌, inl, inr, String, false, Option, none, some, List,
  Bool-cases, arith,
}
use route_planner.Prelude.Text.{str_eq}
use route_planner.Errors.{
  GoError, sentinel, invalid_user_data, internal_server, conflict, errors_is,
}
use route_planner.Errors.Response.{
  Answer, status, internal_error, invalid_json, send_error, send_validation_errors, bad_request,
}
use route_planner.Effects.{Outcome, ok, err, panic, resume, throw, pure}
use route_planner.Models.{User, UserCreateRequest, AuthResponse}
use route_planner.Repository.Gorm.{Table}
use route_planner.Repository.Users.{user_repository}
use route_planner.Repository.Users.Laws.{create-table}
use route_planner.Validation.{Validator, validate_request}
use route_planner.Auth.{JwtLib, JwtService, generate_token}
use route_planner.Users.{Bcrypt, new_user, create}
use route_planner.Users.AuthHandlers.{answer_with_token, register_failed, register_valid, register}
use route_planner.Users.AuthHandlers.Answers.{Given, given, token_answer}

err_injective : (a b : GoError) → ◌≡◌ {A = Outcome User} (err a) (err b) → a ≡ b
err_injective a b h = cc

-- An insert fails with an error of the database's, which is none of the program's own.
pub record IsForeign {W : Type 0} (db : Table W User) : Type 0 where
  pub create_foreign :
      (u : User) (w w' : W) (e : GoError)
      → db.create u w ≡ (err e, w')
      → errors_is e conflict ≡ false

module _ {W : Type 0} (db : Table W User) (bcrypt : Bcrypt W) (lib : JwtLib W) (jwt : JwtService)
    (registers : Validator UserCreateRequest) where
  abbrev NotConflict : Answer AuthResponse → W → Type 0
  NotConflict a w = status a ≢ 409

  failed_status : (e : GoError) → errors_is e conflict ≡ false → status (register_failed e) ≢ 409
  unfolding register_failed internal_error send_error
  failed_status e h k =
      let other : status {A = AuthResponse} (internal_error e) ≡ 409 = rw h at k in omega arith

  created_status :
      (r : Outcome User × W)
      → ((e : GoError) (w : W) → r ≡ (err e, w) → errors_is e conflict ≡ false)
      → Given NotConflict (
          resume r
            (answer_with_token (user_repository db) bcrypt lib jwt 201)
            (λ e. pure (register_failed e)))
  created_status (ok u, w) h =
      token_answer NotConflict 201 u (generate_token lib jwt u.id w)
        λ a w' k e. elim k [ inl made ↦ omega arith | inr failed ↦ omega arith ]
  created_status (err e, w) h = failed_status e (h e w refl)
  created_status (panic, w) h = tt

  hashed_foreign :
      IsForeign db
      → (u : UserCreateRequest) (r : Outcome String × W) (e : GoError) (w' : W)
      → resume r
          (λ hash. (user_repository db).create (new_user u hash))
          (λ _. throw (sentinel internal_server))
        ≡ (err e, w')
      → errors_is e conflict ≡ false
  unfolding errors_is
  hashed_foreign foreign u (ok hash, w) e w' h =
      foreign.create_foreign (new_user u hash) w w' e
        (sym (create-table db (new_user u hash) w) ∙ h)
  hashed_foreign foreign u (err e', w) e w' h =
      subst (λ x. errors_is x conflict ≡ false)
        (err_injective (sentinel internal_server) e (ap (λ r. r.0) h)) refl
  hashed_foreign foreign u (panic, w) e w' h = cc

  create_foreign :
      IsForeign db
      → (u : UserCreateRequest) (e : GoError) (w w' : W)
      → create (user_repository db) bcrypt (some u) w ≡ (err e, w')
      → errors_is e conflict ≡ false
  unfolding create errors_is
  create_foreign foreign u e w w' h =
      elim (Bool-cases (str_eq u.name "" || (str_eq u.email "" || str_eq u.password ""))) [
        | inl missing ↦
            let refused : ◌≡◌ {A = Outcome User × W} (err (sentinel invalid_user_data), w)
                (err e, w') =
              rw missing at h in
            subst (λ x. errors_is x conflict ≡ false)
              (err_injective (sentinel invalid_user_data) e (ap (λ r. r.0) refused)) refl
        | inr filled ↦ hashed_foreign foreign u (bcrypt.generate u.password w) e w' (rw filled at h)
      ]

  valid_status :
      IsForeign db
      → (req : UserCreateRequest) (errors : Option (List (String × String))) (w : W)
      → Given NotConflict
          (register_valid (user_repository db) bcrypt lib jwt registers req errors w)
  unfolding send_validation_errors
  valid_status foreign req (some errors) w = λ k. omega arith
  valid_status foreign req none w =
      created_status (create (user_repository db) bcrypt (some req) w)
        (λ e w' h. create_foreign foreign req e w w' h)

  registered_status :
      IsForeign db
      → (body : Option UserCreateRequest) (w : W)
      → Given NotConflict (register (user_repository db) bcrypt lib jwt registers body w)
  unfolding register invalid_json bad_request send_error
  registered_status foreign none w = λ k. omega arith
  registered_status foreign (some req) w =
      valid_status foreign req (validate_request registers req) w

  -- Over the database no registration is answered with 409, whatever its body: the errors of an insert,
  -- that of the unique email among them, are none of the program's own and so never `ErrConflict`,
  -- which is what `Register` looks for.
  pub register_no_conflict :
      IsForeign db
      → (body : Option UserCreateRequest) (a : Answer AuthResponse) (w w' : W)
      → register (user_repository db) bcrypt lib jwt registers body w ≡ (ok a, w')
      → status a ≢ 409
  register_no_conflict foreign body a w w' h =
      given NotConflict (register (user_repository db) bcrypt lib jwt registers body w) a w' h
        (registered_status foreign body w)
