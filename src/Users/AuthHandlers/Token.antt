-- ===== src/Users/AuthHandlers/Token.antt =====
-- The last part of `Register` and `Login`: an answer with a token.
use route_planner.Prelude.{ℕ, ◌≡◌, ap, sym, subst, inl, inr}
use route_planner.Errors.Response.{Answer, json, internal_error}
use route_planner.Effects.{ok}
use route_planner.Effects.Laws.{respond-eq-ok}
use route_planner.Models.{User, AuthResponse}
use route_planner.Repository.{UserRepository}
use route_planner.Auth.{JwtLib, JwtService, generate_token}
use route_planner.Users.{Bcrypt}
use route_planner.Users.AuthHandlers.{answer_with_token}

json_injective :
    (code : ℕ) (a b : AuthResponse)
    → ◌≡◌ {A = Answer AuthResponse} (json code a) (json code b)
    → a ≡ b
json_injective code a b h = cc

-- The answer is one of success only with a token that was made for the user's ID.
pub answer_with_token-eq-json :
    {W : Type 0} (repo : UserRepository W) (bcrypt : Bcrypt W) (lib : JwtLib W) (jwt : JwtService)
    (code : ℕ) (u : User) (r : AuthResponse) (w w' : W)
    → answer_with_token repo bcrypt lib jwt code u w ≡ (ok (json code r), w')
    → (u ≡ r.user) × (generate_token lib jwt r.user.id w ≡ (ok r.token, w'))
unfolding internal_error
answer_with_token-eq-json repo bcrypt lib jwt code u r w w' h =
    elim (respond-eq-ok (λ token. json code (record { token = token; user = u })) internal_error
      (generate_token lib jwt u.id) w (json code r) w' h) [
        | inl (token, e, same) ↦
            let made : record { token = token; user = u } ≡ r =
              json_injective code _ r (sym same) in
            let whose : u ≡ r.user = ap (λ a. a.user) made in
            (
              whose,
              subst (λ v. generate_token lib jwt v.id w ≡ (ok r.token, w')) whose
                  (subst (λ t. generate_token lib jwt u.id w ≡ (ok t, w')) (ap (λ a. a.token) made)
                    e),
            )
        | inr (e, failed, same) ↦ cc
      ]
