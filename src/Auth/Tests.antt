-- ===== src/Auth/Tests.antt =====
-- Tokens whose library signs by writing the claims to the world, at a clock that stands still.
use text.Mathlib.TextEquality.{eq_iff}
use route_planner.Prelude.{==_iff, and_both, ◌==◌, ◌&&◌, sym}
use route_planner.Prelude.{ℕ, ◌≡◌, refl, ap, String, Bool, true, false, some}
use route_planner.Prelude.Text.{Text, codes, str_eq, same_text, same_text_iff}
use route_planner.Prelude.Int.{ℤ, pos, negsuc}
use route_planner.Errors.{other}
use route_planner.Errors.Response.{Answer, json}
use route_planner.Effects.{Outcome, ok_injective, ok, err, panic, Eff, pure}
use route_planner.Auth.{
  Claims, Method, hmac, Token, JwtLib, JwtService, parse_token, jwt_middleware,
}
use route_planner.Auth.Tokens.{IsJwt, parse_token_verified}
use route_planner.Auth.Middleware.{Gate, jwt_middleware-Gate}

-- The one token that this library knows is "t"; it is for the user "u".
abbrev pub claims : Claims
claims = record { user_id = "u"; expires_at = pos 100; issued_at = pos 0; not_before = pos 0 }

abbrev pub secret : Text
secret = codes "key"

abbrev pub signed : Text
signed = codes "t"

abbrev pub is_pos : ℕ → ℤ → Bool
is_pos n (pos m) = m == n
is_pos n (negsuc m) = false

is_pos_sound : (n : ℕ) (z : ℤ) → is_pos n z ≡ true → z ≡ pos n
is_pos_sound n (pos m) h = ap pos ((==_iff m n).0 h)
is_pos_sound n (negsuc m) h = cc

abbrev pub is_known : Claims → Bool
is_known c =
    str_eq c.user_id "u"
    && (is_pos 100 c.expires_at && (is_pos 0 c.issued_at && is_pos 0 c.not_before))

known_claims : (c : Claims) → is_known c ≡ true → c ≡ claims
known_claims c h =
    let (user, times) = and_both _ _ h in
    let (expires, later) = and_both _ _ times in
    let (issued, before) = and_both _ _ later in
    let user_same : c.user_id ≡ "u" = (eq_iff c.user_id "u").0 user in
    let expires_same = is_pos_sound 100 c.expires_at expires in
    let issued_same = is_pos_sound 0 c.issued_at issued in
    let before_same = is_pos_sound 0 c.not_before before in cc

abbrev pub sign_if : Bool → Outcome Text
sign_if true = ok signed
sign_if false = err (other "sign")

abbrev pub parse_if : Bool → Outcome Token
parse_if true = ok (record { claims = some claims; valid = true })
parse_if false = err (other "parse")

abbrev pub parse_with : Text → Outcome Text → Outcome Token
parse_with token (ok key) = parse_if (same_text token signed && same_text key secret)
parse_with token (err e) = err e
parse_with token panic = panic

abbrev pub lib : JwtLib (Unit {0})
lib = record {
  now = pure (pos 0);
  numeric_date = λ t. t;
  sign = λ c key w. (sign_if (is_known c && same_text key secret), w);
  parse = λ token f w. (parse_with token (f hmac), w);
}

abbrev pub Verifies : Text → Method → Text → Type 0
Verifies token m key = (token ≡ signed) × (m ≡ hmac) × (key ≡ secret)

sign_if_ok : (b : Bool) (token : Text) → sign_if b ≡ ok token → (b ≡ true) × (token ≡ signed)
sign_if_ok true token h = (refl, sym (ok_injective _ _ h))
sign_if_ok false token h = cc

parse_if_ok : (b : Bool) (parsed : Token) → parse_if b ≡ ok parsed → b ≡ true
parse_if_ok true parsed h = refl
parse_if_ok false parsed h = cc

parse_with_ok :
    (token : Text) (k : Outcome Text) (parsed : Token)
    → parse_with token k ≡ ok parsed
    → (key : Text) × (k ≡ ok key) × (token ≡ signed) × (key ≡ secret)
parse_with_ok token (ok key) parsed h =
    let (t, k) = and_both _ _ (parse_if_ok _ parsed h) in
    (key, refl, (same_text_iff token signed).0 t, (same_text_iff key secret).0 k)
parse_with_ok token (err e) parsed h = cc
parse_with_ok token panic parsed h = cc

signed_parsed :
    (c : Claims) (key token : Text) (k : Outcome Text)
    → sign_if (is_known c && same_text key secret) ≡ ok token
    → k ≡ ok key
    → parse_with token k ≡ ok (record { claims = some c; valid = true })
signed_parsed c key token k h hk =
    let (both, token_same) = sign_if_ok _ token h in
    let (known, key_same) = and_both _ _ both in
    rw (hk, token_same, (same_text_iff key secret).0 key_same, known_claims c known) refl

pub lib-IsJwt : IsJwt lib Verifies
lib-IsJwt = record {
  parse_signed = λ c key token w w' v v' t f made called clock early late.
      ap (λ o. (o, tt)) (signed_parsed c key token (f hmac) (ap (λ r. r.0) made) called);
  parse_verified = λ token f w w' parsed h.
      (let (key, called, token_same, key_same) =
          parse_with_ok token (f hmac) parsed (ap (λ r. r.0) h) in
        (hmac, key, called, (token_same, refl, key_same)));
}

abbrev pub service : JwtService
service = record { secret = secret; expiration = pos 100 }

token_parsed : parse_token lib service signed tt ≡ (ok "u", tt)
unfolding parse_token
token_parsed = refl

parse_token_verified_example : Verifies signed hmac secret
parse_token_verified_example =
    parse_token_verified lib service Verifies lib-IsJwt signed "u" tt tt token_parsed

abbrev pub greet : String → Eff (Unit {0}) (Answer String)
greet user_id = pure (json 200 user_id)

jwt_middleware-Gate_example :
    Gate lib service greet tt (jwt_middleware lib service (codes "Basic x") greet tt)
jwt_middleware-Gate_example = jwt_middleware-Gate lib service greet (codes "Basic x") tt
