-- ===== src/Auth/Lifetime.antt =====
-- How long the tokens of internal/auth/auth.go are good for.
use route_planner.Prelude.{ℕ, ◌≤◌, ◌≡◌, refl, sym, ap, ◌∙◌, String, true, false, arith}
use route_planner.Prelude.Text.{Text}
use route_planner.Prelude.Int.{ℤ, pos, negsuc, is_negative, ltb_int, ◌+ℤ◌}
use route_planner.Errors.{GoError, sentinel, auth_invalid_token}
use route_planner.Effects.{Outcome, ok, err, ok_injective}
use route_planner.Auth.{
  Claims, Method, JwtLib, JwtService, new_jwt_service, key_for, generate_token, parse_token,
}
use route_planner.Auth.Tokens.{
  IsJwt, claims_at, parse_token-generate_token, new_jwt_service_overflow,
}
use route_planner.Auth.Made.{IsMade, generate_token-IsMade}

-- A date is never after the time that it is cut from.
pub record IsDated {W : Type 0} (lib : JwtLib W) : Type 0 where
  pub cut_early : (s t : ℤ) → ltb_int s t ≡ true → ltb_int (lib.numeric_date s) t ≡ true
  pub cut_late : (s t : ℤ) → ltb_int t s ≡ false → ltb_int t (lib.numeric_date s) ≡ false

-- A signed token is refused from its expiry on.
pub record IsExpiring {W : Type 0} (lib : JwtLib W) : Type 0 where
  pub parse_expired :
      (claims : Claims) (key token : Text) (w w' v v' : W) (t : ℤ) (f : Method → Outcome Text)
      → lib.sign claims key w ≡ (ok token, w')
      → lib.now v ≡ (ok t, v')
      → ltb_int t claims.expires_at ≡ false
      → (e : GoError) × (lib.parse token f v ≡ (err e, v'))

add_negative : (t x : ℤ) → is_negative x ≡ true → ltb_int (t +ℤ x) t ≡ true
add_negative (pos a) (pos n) h = cc
add_negative (negsuc a) (pos n) h = cc
add_negative (pos a) (negsuc n) h = ground arith
add_negative (negsuc a) (negsuc n) h = ground arith

not_yet : (d s t : ℤ) → ltb_int d s ≡ true → ltb_int t s ≡ false → ltb_int t d ≡ false
not_yet (pos d) (pos s) (pos t) h k = ground arith
not_yet (pos d) (pos s) (negsuc t) h k = cc
not_yet (pos d) (negsuc s) t h k = cc
not_yet (negsuc d) (pos s) (pos t) h k = refl
not_yet (negsuc d) (pos s) (negsuc t) h k = cc
not_yet (negsuc d) (negsuc s) (pos t) h k = refl
not_yet (negsuc d) (negsuc s) (negsuc t) h k = ground arith

module _ {W : Type 0} (lib : JwtLib W) where
  -- A token that was made is accepted from the last reading of the clock until the second of its expiry.
  pub made_accepted :
      (s : JwtService) (Verifies : Text → Method → Text → Type 0)
      → IsJwt lib Verifies
      → IsDated lib
      → (user_id : String) (token : Text) (w w' : W) (m : IsMade lib s user_id token w w') (t : ℤ)
        (v v' : W)
      → lib.now v ≡ (ok t, v')
      → ltb_int t m.t₃ ≡ false
      → ltb_int t (lib.numeric_date (m.t₁ +ℤ s.expiration)) ≡ true
      → parse_token lib s token v ≡ (ok user_id, v')
  made_accepted s Verifies lawful dated user_id token w w' m t v v' clock early late =
      (parse_token-generate_token lib s Verifies lawful user_id token m.t₁ m.t₂ m.t₃ t w m.w₁ m.w₂
        m.w₃ w' v v' m.first m.second m.third m.signed clock (dated.cut_late m.t₃ t early) late).1

  -- The readings of the clock are those of the calls.
  pub made_at :
      (s : JwtService) (user_id : String) (token : Text) (w w' : W)
      (m : IsMade lib s user_id token w w') (t : ℤ) (v : W)
      → lib.now w ≡ (ok t, v)
      → m.t₁ ≡ t
  made_at s user_id token w w' m t v reading =
      ok_injective m.t₁ t (ap (λ r. r.0) (sym m.first ∙ reading))

  -- With a configured lifetime of 2562048 to 5124095 hours every token is useless: the lifetime overflows,
  -- and from the first reading of the clock on, at which the token is made, the service refuses it.
  pub generate_token_overflow :
      IsDated lib
      → IsExpiring lib
      → (secret : Text) (hours : ℕ) → 2562048 ≤ hours
      → hours ≤ 5124095
      → (user_id : String) (token : Text) (t₁ t : ℤ) (w w₁ w' v v' : W)
      → generate_token lib (new_jwt_service secret (pos hours)) user_id w ≡ (ok token, w')
      → lib.now w ≡ (ok t₁, w₁)
      → lib.now v ≡ (ok t, v')
      → ltb_int t t₁ ≡ false
      → parse_token lib (new_jwt_service secret (pos hours)) token v
        ≡ (err (sentinel auth_invalid_token), v')
  unfolding parse_token
  generate_token_overflow dated expiring secret hours h k user_id token t₁ t w w₁ w' v v' made
        reading clock later =
      let s = new_jwt_service secret (pos hours) in
      let m = generate_token-IsMade lib s user_id token w w' made in
      let over =
        dated.cut_early (m.t₁ +ℤ s.expiration) m.t₁
          (add_negative m.t₁ s.expiration (new_jwt_service_overflow secret hours h k)) in
      let same = made_at s user_id token w w' m t₁ w₁ reading in
      let (e, refused) =
        expiring.parse_expired (claims_at lib s user_id m.t₁ m.t₂ m.t₃) s.secret token m.w₃ w' v v'
          t (key_for s) m.signed clock (not_yet _ m.t₁ t over (rw same later)) in
      rw refused refl
