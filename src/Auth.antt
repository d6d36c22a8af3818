-- ===== src/Auth.antt =====
-- internal/auth/auth.go and middleware.go
pub mod Tokens
pub mod Made
pub mod Lifetime
pub mod Middleware
pub mod Tests
use route_planner.Prelude.{
  ℕ, ◌+◌, String, Bool, true, false, ◌&&◌, Option, none, some, List, [], ◌∷◌, ◌++◌, leb, ◌==◌,
  if◌then◌else◌,
}
use route_planner.Prelude.Text.{Text, codes, same_text}
use route_planner.Prelude.Int.{ℤ, pos, scale64, is_nonpositive, ◌+ℤ◌}
use route_planner.Errors.{GoError, sentinel, auth_invalid_token}
use route_planner.Errors.Response.{Answer, unauthorized_answer}
use route_planner.Effects.{Outcome, ok, err, Eff, pure, throw, handle, ◌>>=◌}

-- `Claims`; the times are in nanoseconds.
pub record Claims : Type 0 where
  pub user_id : String
  pub expires_at : ℤ
  pub issued_at : ℤ
  pub not_before : ℤ

-- The signing method of a token's header: of the HMAC family, or another one.
pub data Method : Type 0 where
  hmac : Method
  another : ℕ → Method

-- What `ParseWithClaims` returns: the claims, if they are of our type, and the `Valid` flag.
pub record Token : Type 0 where
  pub claims : Option Claims
  pub valid : Bool

-- The JWT library and the clock: `SignedString` by HS256, and `ParseWithClaims`, which calls back
-- for the key of the token's method; `numeric_date` is `NewNumericDate`, which cuts a time to the second.
pub record JwtLib (W : Type 0) : Type 0 where
  pub now : Eff W ℤ
  pub numeric_date : ℤ → ℤ
  pub sign : Claims → Text → Eff W Text
  pub parse : Text → (Method → Outcome Text) → Eff W Token

pub record JwtService : Type 0 where
  pub secret : Text
  pub expiration : ℤ

-- `time.Hour`
abbrev hour : ℕ
hour = 3_600_000_000_000

pub new_jwt_service : Text → ℤ → JwtService
new_jwt_service secret expiration_hours = record {
  secret = secret;
  expiration = scale64 (if is_nonpositive expiration_hours then pos 24 else expiration_hours) hour;
}

-- The callback of `ParseToken`.
abbrev pub key_for : JwtService → Method → Outcome Text
key_for s hmac = ok s.secret
key_for s (another _) = err (sentinel auth_invalid_token)

module _ {W : Type 0} (lib : JwtLib W) (s : JwtService) where
  unfoldable pub generate_token : String → Eff W Text
  generate_token user_id = do
    expires ← lib.now
    issued ← lib.now
    not_before ← lib.now
    let claims : Claims = record {
      user_id = user_id;
      expires_at = lib.numeric_date (expires +ℤ s.expiration);
      issued_at = lib.numeric_date issued;
      not_before = lib.numeric_date not_before;
    }
    lib.sign claims s.secret

  abbrev user_of : Option Claims → Bool → Eff W String
  user_of (some claims) true = pure claims.user_id
  user_of (some claims) false = throw (sentinel auth_invalid_token)
  user_of none valid = throw (sentinel auth_invalid_token)

  unfoldable pub parse_token : Text → Eff W String
  parse_token token =
      handle (lib.parse token (key_for s)) (λ t. user_of t.claims t.valid)
        (λ _. throw (sentinel auth_invalid_token))

-- `strings.Split(s, " ")`; `cur` is the part so far.
abbrev split_blank : Text → Text → List Text
split_blank cur [] = cur ∷ []
split_blank cur (c ∷ s) =
    let closed = cur ∷ split_blank [] s in
    let longer = split_blank (cur ++ c ∷ []) s in if c == b' ' then closed else longer

-- `strings.ToLower`, as far as a comparison with an ASCII word that has no `i` and no `k` can tell:
-- only capital ASCII letters become a letter of such a word.
abbrev pub to_lower : Text → Text
to_lower [] = []
to_lower (c ∷ s) = (if leb b'A' c && leb c b'Z' then c + 32 else c) ∷ to_lower s

module _ {W A : Type 0} (lib : JwtLib W) (s : JwtService) where
  -- The token goes to the parser; the handler behind is called with the user's ID.
  abbrev check_token : (String → Eff W (Answer A)) → Text → Eff W (Answer A)
  check_token next token =
      handle (parse_token lib s token) next
        (λ _. pure (unauthorized_answer "Invalid or expired token"))

  abbrev check_parts : (String → Eff W (Answer A)) → List Text → Eff W (Answer A)
  check_parts next (scheme ∷ token ∷ []) =
      if same_text (to_lower scheme) (codes "bearer")
      then check_token next token
      else pure (unauthorized_answer "Invalid authorization header format")
  check_parts next _ = pure (unauthorized_answer "Invalid authorization header format")

  -- `next` is the rest of the chain, which reads the ID from `c.Locals("user_id")`.
  pub jwt_middleware : Text → (String → Eff W (Answer A)) → Eff W (Answer A)
  unfolding unauthorized_answer parse_token
  jwt_middleware [] next = pure (unauthorized_answer "Missing authorization header")
  jwt_middleware (c ∷ header) next = check_parts next (split_blank [] (c ∷ header))
