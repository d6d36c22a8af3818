-- ===== src/Auth/Made.antt =====
-- The calls that a token comes from.
use route_planner.Prelude.{◌≡◌, String}
use route_planner.Prelude.Text.{Text}
use route_planner.Prelude.Int.{ℤ}
use route_planner.Effects.{ok}
use route_planner.Effects.Laws.{>>=-eq-ok}
use route_planner.Auth.{JwtLib, JwtService, generate_token}
use route_planner.Auth.Tokens.{claims_at}

-- What a token was made of: three readings of the clock and a signature.
pub record IsMade {W : Type 0} (lib : JwtLib W) (s : JwtService) (user_id : String) (token : Text)
    (w w' : W) : Type 0 where
  pub t₁ : ℤ
  pub t₂ : ℤ
  pub t₃ : ℤ
  pub w₁ : W
  pub w₂ : W
  pub w₃ : W
  pub first : lib.now w ≡ (ok t₁, w₁)
  pub second : lib.now w₁ ≡ (ok t₂, w₂)
  pub third : lib.now w₂ ≡ (ok t₃, w₃)
  pub signed : lib.sign (claims_at lib s user_id t₁ t₂ t₃) s.secret w₃ ≡ (ok token, w')

module _ {W : Type 0} (lib : JwtLib W) (s : JwtService) where
  pub generate_token-IsMade :
      (user_id : String) (token : Text) (w w' : W)
      → generate_token lib s user_id w ≡ (ok token, w')
      → IsMade lib s user_id token w w'
  unfolding generate_token
  generate_token-IsMade user_id token w w' h =
      let (t₁, w₁, first, h₁) = >>=-eq-ok lib.now _ w token w' h in
      let (t₂, w₂, second, h₂) = >>=-eq-ok lib.now _ w₁ token w' h₁ in
      let (t₃, w₃, third, h₃) = >>=-eq-ok lib.now _ w₂ token w' h₂ in
      record {
        t₁ = t₁;
        t₂ = t₂;
        t₃ = t₃;
        w₁ = w₁;
        w₂ = w₂;
        w₃ = w₃;
        first = first;
        second = second;
        third = third;
        signed = h₃;
      }
