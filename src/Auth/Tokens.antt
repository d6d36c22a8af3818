-- ===== src/Auth/Tokens.antt =====
-- What tokens are good for.
use route_planner.Prelude.{
  ℕ, ◌*◌, ◌≤◌, ◌≡◌, refl, sym, subst, ◌⊎◌, inl, inr, String, Bool, true, false, Option, none, some,
  arith, if◌then◌else◌,
}
use route_planner.Prelude.Text.{Text}
use route_planner.Prelude.Int.{ℤ, pos, negsuc, is_nonpositive, is_negative, ltb_int, pos_part, ◌+ℤ◌}
use route_planner.Errors.{GoError, sentinel, auth_invalid_token}
use route_planner.Effects.{Outcome, ok, err, panic, throw, resume, ok_injective}
use route_planner.Auth.{
  Claims, Method, hmac, another, Token, JwtLib, JwtService, new_jwt_service, key_for, user_of,
  generate_token, parse_token,
}

-- What the library documents. `Verifies token m key` says that the token's header names the method
-- and that its signature is right under the key.
pub record IsJwt {W : Type 0} (lib : JwtLib W) (Verifies : Text → Method → Text → Type 0)
    : Type 0 where
  -- A signed token is parsed again, with its claims, while they are valid.
  pub parse_signed :
      (claims : Claims) (key token : Text) (w w' v v' : W) (t : ℤ) (f : Method → Outcome Text)
      → lib.sign claims key w ≡ (ok token, w')
      → f hmac ≡ ok key
      → lib.now v ≡ (ok t, v')
      → ltb_int t claims.not_before ≡ false
      → ltb_int t claims.expires_at ≡ true
      → lib.parse token f v ≡ (ok (record { claims = some claims; valid = true }), v')
  -- Only a token that the callback's key verifies is parsed without an error.
  pub parse_verified :
      (token : Text) (f : Method → Outcome Text) (w w' : W) (parsed : Token)
      → lib.parse token f w ≡ (ok parsed, w')
      → (m : Method) × (key : Text) × (f m ≡ ok key) × Verifies token m key

-- The claims that a token is made with, from the three readings of the clock.
abbrev pub claims_at : {W : Type 0} → JwtLib W → JwtService → String → ℤ → ℤ → ℤ → Claims
claims_at lib s user_id t₁ t₂ t₃ = record {
  user_id = user_id;
  expires_at = lib.numeric_date (t₁ +ℤ s.expiration);
  issued_at = lib.numeric_date t₂;
  not_before = lib.numeric_date t₃;
}

module _ {W : Type 0} (lib : JwtLib W) (s : JwtService) where
  -- A token that the service made is accepted by the service, with the user's ID, from the second of its
  -- making until the second of its expiry.
  pub parse_token-generate_token :
      (Verifies : Text → Method → Text → Type 0)
      → IsJwt lib Verifies
      → (user_id : String) (token : Text) (t₁ t₂ t₃ t : ℤ) (w w₁ w₂ w₃ w₄ v v' : W)
      → lib.now w ≡ (ok t₁, w₁)
      → lib.now w₁ ≡ (ok t₂, w₂)
      → lib.now w₂ ≡ (ok t₃, w₃)
      → lib.sign (claims_at lib s user_id t₁ t₂ t₃) s.secret w₃ ≡ (ok token, w₄)
      → lib.now v ≡ (ok t, v')
      → ltb_int t (lib.numeric_date t₃) ≡ false
      → ltb_int t (lib.numeric_date (t₁ +ℤ s.expiration)) ≡ true
      → (generate_token lib s user_id w ≡ (ok token, w₄))
        × (parse_token lib s token v ≡ (ok user_id, v'))
  unfolding generate_token parse_token
  parse_token-generate_token Verifies j user_id token t₁ t₂ t₃ t w w₁ w₂ w₃ w₄ v v' h₁ h₂ h₃ signed
        now started running =
      let parsed =
        j.parse_signed (claims_at lib s user_id t₁ t₂ t₃) s.secret token w₃ w₄ v v' t (key_for s)
          signed refl now started running in
      (rw (h₁, h₂, h₃, signed), rw parsed)

  user_of_total :
      (c : Option Claims) (valid : Bool) (w : W)
      → ((u : String) × (user_of lib s c valid w ≡ (ok u, w)))
        ⊎ (user_of lib s c valid w ≡ (err (sentinel auth_invalid_token), w))
  user_of_total none valid w = inr refl
  user_of_total (some c) true w = inl (c.user_id, refl)
  user_of_total (some c) false w = inr refl

  error_of :
      (r : Outcome Token × W) {e : GoError} {w' : W}
      → resume r (λ t. user_of lib s t.claims t.valid) (λ _. throw (sentinel auth_invalid_token))
        ≡ (err e, w')
      → e ≡ sentinel auth_invalid_token
  error_of (ok t, w) h = elim (user_of_total t.claims t.valid w) [
    | inl (u, made) ↦ cc
    | inr refused ↦ cc
  ]
  error_of (err _, w) h = cc
  error_of (panic, w) h = cc

  accepted_token :
      (r : Outcome Token × W) {u : String} {w' : W}
      → resume r (λ t. user_of lib s t.claims t.valid) (λ _. throw (sentinel auth_invalid_token))
        ≡ (ok u, w')
      → (t : Token) × (w₁ : W) × (r ≡ (ok t, w₁))
  accepted_token (ok t, w) h = (t, w, refl)
  accepted_token (err _, w) h = cc
  accepted_token (panic, w) h = cc

  -- Whatever goes wrong with a token, the one error is `ErrInvalidToken`.
  pub parse_token_error :
      (token : Text) (e : GoError) (w w' : W)
      → parse_token lib s token w ≡ (err e, w')
      → e ≡ sentinel auth_invalid_token
  unfolding parse_token
  parse_token_error token e w w' h = error_of (lib.parse token (key_for s) w) h

  -- A user's ID comes only from a token of the HMAC family that the service's secret verifies: a token
  -- of another method is refused, whatever its signature.
  pub parse_token_verified :
      (Verifies : Text → Method → Text → Type 0)
      → IsJwt lib Verifies
      → (token : Text) (user_id : String) (w w' : W) → parse_token lib s token w ≡ (ok user_id, w')
      → Verifies token hmac s.secret
  unfolding parse_token
  parse_token_verified Verifies j token user_id w w' h =
      let (parsed, w₁, accepted) = accepted_token (lib.parse token (key_for s) w) h in
      let (m, key, given, verified) = j.parse_verified token (key_for s) w w₁ parsed accepted in
      hmac_key m key given verified
    where
      hmac_key :
          (m : Method) (key : Text)
          → key_for s m ≡ ok key
          → Verifies token m key
          → Verifies token hmac s.secret
      hmac_key hmac key given verified =
          subst (Verifies token hmac) (sym (ok_injective s.secret key given)) verified
      hmac_key (another n) key given verified = cc

-- A configured lifetime of up to 2562047 hours is exact; zero and less give 24 hours.
pub new_jwt_service-expiration :
    (secret : Text) (hours : ℤ)
    → ltb_int hours (pos 2562048) ≡ true
    → (new_jwt_service secret hours).expiration ≡ (
        if is_nonpositive hours
        then pos (24 * 3_600_000_000_000)
        else pos (pos_part hours * 3_600_000_000_000))
unfolding new_jwt_service
new_jwt_service-expiration secret (pos n) h = ground arith
new_jwt_service-expiration secret (negsuc n) h = refl

-- With a configured lifetime of 2562048 to 5124095 hours the product overflows to a negative one.
pub new_jwt_service_overflow :
    (secret : Text) (hours : ℕ)
    → 2562048 ≤ hours
    → hours ≤ 5124095
    → is_negative (new_jwt_service secret (pos hours)).expiration ≡ true
unfolding new_jwt_service
new_jwt_service_overflow secret hours h k = ground arith
