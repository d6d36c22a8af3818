-- ===== src/Users/AuthHandlers/Session.antt =====
-- Registration, login and the middleware together.
pub mod Tests
use route_planner.Prelude.{
  ℕ, ◌≡◌, refl, sym, ap, subst, ◌∙◌, ◌++◌, ◌∷◌, ◌||◌, inl, inr, String, Bool, true, false, Option,
  none, some, List, Bool-cases, arith,
}
use route_planner.Prelude.Text.{Text, codes, str_eq}
use route_planner.Prelude.Int.{ℤ, ltb_int, ◌+ℤ◌}
use route_planner.Errors.{GoError, sentinel, invalid_user_data, conflict, errors_is, error_text}
use route_planner.Errors.Response.{
  Answer, json, failure, internal_error, send_error, send_validation_errors, invalid_json,
  bad_request,
}
use route_planner.Effects.{Outcome, ok, err, panic, Eff, resume, pure, ok_injective}
use route_planner.Effects.Laws.{>>=-eq-ok, outcome_pair}
use route_planner.Models.{User, UserCreateRequest, LoginRequest, AuthResponse}
use route_planner.Repository.Gorm.{Table}
use route_planner.Repository.{UserRepository}
use route_planner.Repository.Users.{user_repository}
use route_planner.Repository.Users.Laws.{create-table, get_by_email_found}
use route_planner.Validation.{Validator, validate_request}
use route_planner.Auth.{Claims, Method, JwtLib, JwtService, generate_token, jwt_middleware}
use route_planner.Auth.Tokens.{IsJwt}
use route_planner.Auth.Lifetime.{IsDated, made_accepted}
use route_planner.Auth.Made.{IsMade, generate_token-IsMade}
use route_planner.Auth.Middleware.{IsSolid, scheme-IsSolid, jwt_middleware_bearer}
use route_planner.Users.{Bcrypt, new_user, create, get_by_email, validate_password}
use route_planner.Users.AuthHandlers.{
  answer_with_token, register_failed, register_valid, register, check_password, login,
}
use route_planner.Users.AuthHandlers.Token.{answer_with_token-eq-json}
use route_planner.Users.AuthHandlers.Login.{IsLogin, login-IsLogin}
use route_planner.Users.AuthHandlers.Register.{create_hashed, register_parts, create_filled}

-- What bcrypt documents: a hash that it has made matches its password.
pub record IsBcrypt {W : Type 0} (bcrypt : Bcrypt W) : Type 0 where
  pub matches_generated :
      (password hash : String) (w w' : W)
      → bcrypt.generate password w ≡ (ok hash, w')
      → bcrypt.matches hash password ≡ true

-- What the database documents of the users by their unique email: of a row that has been inserted the
-- ID and the hash are there as they were written, while the times may be rounded, and a lookup finds
-- the row. Reading the clock and signing a token leave the rows alone.
pub record IsAccounts {W : Type 0} (db : Table W User) (lib : JwtLib W)
    (by_email : W → String → Option User) : Type 0 where
  pub created :
      (u u' : User) (w w' : W)
      → db.create u w ≡ (ok u', w')
      → (stored : User) × (by_email w' u.email ≡ some stored)
        × (stored.id ≡ u'.id)
        × (stored.password_hash ≡ u.password_hash)
  pub found :
      (email : String) (u : User) (w : W)
      → by_email w email ≡ some u
      → (db.first "email" email w).0 ≡ ok u
  pub now_keeps : (w : W) (email : String) → by_email (lib.now w).1 email ≡ by_email w email
  pub sign_keeps :
      (claims : Claims) (key : Text) (w : W) (email : String)
      → by_email (lib.sign claims key w).1 email ≡ by_email w email

some_same : (a b : LoginRequest) → some a ≡ some b → a ≡ b
some_same a b h = cc

module _ {W X : Type 0} where
  -- A call has one value and one world after it.
  ok_both :
      {r : Outcome X × W} {a b : X} {w w' : W} → r ≡ (ok a, w) → r ≡ (ok b, w') → (a ≡ b) × (w ≡ w')
  ok_both {a = a} {b = b} h k =
      (ok_injective a b (ap (λ r. r.0) (sym h ∙ k)), ap (λ r. r.1) (sym h ∙ k))

module _ {W : Type 0} (db : Table W User) (bcrypt : Bcrypt W) (lib : JwtLib W) (jwt : JwtService)
    {by_email : W → String → Option User} (accounts : IsAccounts db lib by_email) where
  made_keeps :
      (user_id : String) (token : Text) (w w' : W) (email : String)
      → IsMade lib jwt user_id token w w'
      → by_email w' email ≡ by_email w email
  made_keeps user_id token w w' email m =
      let now_at = λ (t : ℤ) (v v' : W) (h : lib.now v ≡ (ok t, v')).
        subst (λ u. by_email u email ≡ by_email v email) (ap (λ p. p.1) h)
          (accounts.now_keeps v email) in
      subst (λ u. by_email u email ≡ by_email m.w₃ email) (ap (λ p. p.1) m.signed)
        (accounts.sign_keeps _ _ m.w₃ email)
      ∙ (now_at m.t₃ m.w₂ m.w₃ m.third
          ∙ (now_at m.t₂ m.w₁ m.w₂ m.second ∙ now_at m.t₁ w m.w₁ m.first))

  module _ (registers : Validator UserCreateRequest) (logins : Validator LoginRequest) where
    abbrev repo : UserRepository W
    repo = user_repository db

    -- Whoever has just been registered can log in with the same email and password: if the database
    -- answers, the pair passes the login's own validation and the login's token can be signed, it is
    -- answered with 200, that token, and a row with the ID of the user that the registration returned.
    pub login-register :
        IsBcrypt bcrypt
        → (req : UserCreateRequest) (r : AuthResponse) (token : Text) (w w' w'' : W)
        → register repo bcrypt lib jwt registers (some req) w ≡ (ok (json 201 r), w')
        → validate_request logins (record { email = req.email; password = req.password }) ≡ none
        → generate_token lib jwt r.user.id (db.first "email" req.email w').1 ≡ (ok token, w'')
        → (stored : User) × (stored.id ≡ r.user.id)
          × (login repo bcrypt lib jwt logins
                (some (record { email = req.email; password = req.password }))
                w'
              ≡ (ok (json 200 (record { token = token; user = stored })), w''))
    unfolding login get_by_email validate_password
    login-register lawful req r token w w' w'' h valid signed =
        let (v, inserted_user, made) = register_parts repo bcrypt lib jwt registers req r w w' h in
        let (named, secret) =
          create_filled repo bcrypt lib jwt registers req r.user w v inserted_user in
        let (hash, v₁, generated, inserted) =
          create_hashed repo bcrypt req r.user w v inserted_user in
        let (stored, there, same_id, same_hash) =
          accounts.created (new_user req hash) r.user v₁ v
            (sym (create-table db (new_user req hash) v₁) ∙ inserted) in
        let still : by_email w' req.email ≡ some stored =
          made_keeps r.user.id r.token v w' req.email
            (generate_token-IsMade lib jwt r.user.id r.token v w' made)
          ∙ there in
        let matched : bcrypt.matches stored.password_hash req.password ≡ true =
          rw same_hash (lawful.matches_generated req.password hash w v₁ generated) in
        (
          stored,
          same_id,
          rw
              (
                valid,
                named,
                get_by_email_found db req.email stored w' _ (
                    outcome_pair (db.first "email" req.email w')
                      (accounts.found req.email stored w' still)),
                secret,
                matched,
                same_id,
                signed,
              )
              refl,
        )

module _ {W A : Type 0} (repo : UserRepository W) (bcrypt : Bcrypt W) (lib : JwtLib W)
    (jwt : JwtService) (logins : Validator LoginRequest) where
  -- The token that a login is answered with, where it has no space in it, opens the handlers behind the
  -- middleware: from the third reading of the clock, at which it was made, until the second of its
  -- expiry, a request that carries it reaches the handler, with the ID of the user whom the login has
  -- looked up by the email.
  pub jwt_middleware-login :
      (Verifies : Text → Method → Text → Type 0)
      → IsJwt lib Verifies
      → IsDated lib
      → (next : String → Eff W (Answer A)) (req : LoginRequest) (r : AuthResponse) (u : User)
        (t₁ t₂ t₃ t : ℤ) (w w₀ w₁ w₂ w₃ w' v v' : W)
      → login repo bcrypt lib jwt logins (some req) w ≡ (ok (json 200 r), w')
      → repo.get_by_email req.email w ≡ (ok u, w₀)
      → lib.now w₀ ≡ (ok t₁, w₁)
      → lib.now w₁ ≡ (ok t₂, w₂)
      → lib.now w₂ ≡ (ok t₃, w₃)
      → IsSolid r.token
      → lib.now v ≡ (ok t, v')
      → ltb_int t t₃ ≡ false
      → ltb_int t (lib.numeric_date (t₁ +ℤ jwt.expiration)) ≡ true
      → jwt_middleware lib jwt (codes "Bearer" ++ (b' ' ∷ r.token)) next v ≡ next u.id v'
  jwt_middleware-login Verifies lawful dated next req r u t₁ t₂ t₃ t w w₀ w₁ w₂ w₃ w' v v' h known
        first second third solid clock early late =
      let l = login-IsLogin repo bcrypt lib jwt logins (some req) r w w' h in
      let m = generate_token-IsMade lib jwt r.user.id r.token l.found w' l.token in
      let same_req : l.req ≡ req = sym (some_same req l.req l.parsed) in
      let (same_user, same_world) =
        ok_both (subst (λ x. repo.get_by_email x.email w ≡ (ok r.user, l.found)) same_req l.known)
          known in
      let (e₁, f₁) = ok_both (subst (λ x. lib.now x ≡ (ok m.t₁, m.w₁)) same_world m.first) first in
      let (e₂, f₂) = ok_both (subst (λ x. lib.now x ≡ (ok m.t₂, m.w₂)) f₁ m.second) second in
      let (e₃, f₃) = ok_both (subst (λ x. lib.now x ≡ (ok m.t₃, m.w₃)) f₂ m.third) third in
      subst (λ x. jwt_middleware lib jwt (codes "Bearer" ++ (b' ' ∷ r.token)) next v ≡ next x.id v')
        same_user
        (jwt_middleware_bearer lib jwt next (codes "Bearer") r.token r.user.id v v' scheme-IsSolid
          solid refl
          (made_accepted lib jwt Verifies lawful dated r.user.id r.token l.found w' m t v v' clock
            (rw e₃ early) (rw e₁ late)))
