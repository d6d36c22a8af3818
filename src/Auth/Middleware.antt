-- ===== src/Auth/Middleware.antt =====
-- Who gets past the JWT middleware.
use mathlib.Core.List.{append_assoc, append-nil}
use route_planner.Prelude.{
  ◌≡◌, refl, sym, ap, ◌∙◌, ◌≢◌, inl, inr, String, false, List, [], ◌∷◌, ◌++◌, arith, All,
  Bool-cases, ◌==◌,
}
use route_planner.Prelude.Text.{Text, codes, same_text, same_text_iff}
use route_planner.Errors.Response.{Answer, unauthorized_answer}
use route_planner.Effects.{Outcome, ok, panic, Eff}
use route_planner.Effects.Laws.{Result, result, is_ok, is_err, is_panic}
use route_planner.Auth.{
  JwtLib, JwtService, parse_token, split_blank, to_lower, check_token, check_parts, jwt_middleware,
}

-- A text without a blank.
abbrev pub IsSolid : Text → Type 0
IsSolid = All (λ c. c ≢ b' ')

split_blank-solid : (cur s : Text) → IsSolid s → split_blank cur s ≡ (cur ++ s) ∷ []
split_blank-solid cur [] h = ap (λ r. r ∷ []) (sym (append-nil cur))
split_blank-solid cur (c ∷ s) h =
    let other : (c == b' ') ≡ false = ground arith in
    rw other
      (split_blank-solid (cur ++ c ∷ []) s h.1 ∙ ap (λ r. r ∷ []) (append_assoc cur (c ∷ []) s))

split_blank-append :
    (cur s t : Text) → IsSolid s → split_blank cur (s ++ (b' ' ∷ t)) ≡ (cur ++ s) ∷ split_blank [] t
split_blank-append cur [] t h = ap (λ r. r ∷ split_blank [] t) (sym (append-nil cur))
split_blank-append cur (c ∷ s) t h =
    let other : (c == b' ') ≡ false = ground arith in
    rw other (
      split_blank-append (cur ++ c ∷ []) s t h.1
      ∙ ap (λ r. r ∷ split_blank [] t) (append_assoc cur (c ∷ []) s))

pub scheme-IsSolid : IsSolid (codes "Bearer")
scheme-IsSolid =
    (omega arith, (omega arith, (omega arith, (omega arith, (omega arith, (omega arith, tt))))))

module _ {W A : Type 0} (lib : JwtLib W) (s : JwtService) (next : String → Eff W (Answer A)) where
  -- A header "Bearer <token>", the scheme in any case, with a token that the service accepts lets the
  -- request through with the token's user.
  pub jwt_middleware_bearer :
      (scheme token : Text) (user_id : String) (w w' : W)
      → IsSolid scheme
      → IsSolid token
      → to_lower scheme ≡ codes "bearer"
      → parse_token lib s token w ≡ (ok user_id, w')
      → jwt_middleware lib s (scheme ++ (b' ' ∷ token)) next w ≡ next user_id w'
  unfolding jwt_middleware
  jwt_middleware_bearer [] token user_id w w' hs ht bearer parsed = cc
  jwt_middleware_bearer (c ∷ scheme) token user_id w w' hs ht bearer parsed =
      let parts : split_blank [] (c ∷ (scheme ++ (b' ' ∷ token))) ≡ (c ∷ scheme) ∷ token ∷ [] =
        split_blank-append [] (c ∷ scheme) token hs
        ∙ ap (λ r. (c ∷ scheme) ∷ r) (split_blank-solid [] token ht) in
      rw (parts, (same_text_iff (to_lower (c ∷ scheme)) (codes "bearer")).1 bearer, parsed)

  -- What the middleware can do with a request: refuse it, pass it on with the user of a token that the
  -- service accepts, or panic with the library.
  pub data Gate (w : W) (r : Outcome (Answer A) × W) : Type 0 where
    refused : (text : String) (w' : W) → r ≡ (ok (unauthorized_answer text), w') → Gate w r
    passed :
        (token : Text) (user_id : String) (w' : W)
        → parse_token lib s token w ≡ (ok user_id, w')
        → r ≡ next user_id w'
        → Gate w r
    crashed :
        (token : Text) (w' : W)
        → parse_token lib s token w ≡ (panic, w')
        → r ≡ (panic, w')
        → Gate w r

  check_token-Gate : (token : Text) (w : W) → Gate w (check_token lib s next token w)
  check_token-Gate token w = gate_of (result (parse_token lib s token w))
    where
      gate_of :
          Result W String (parse_token lib s token w) → Gate w (check_token lib s next token w)
      gate_of (is_ok u w' e) = passed token u w' e (rw e)
      gate_of (is_err x w' e) = refused "Invalid or expired token" w' (rw e)
      gate_of (is_panic w' e) = crashed token w' e (rw e)

  check_parts-Gate : (parts : List Text) (w : W) → Gate w (check_parts lib s next parts w)
  check_parts-Gate [] w = refused _ w refl
  check_parts-Gate (a ∷ []) w = refused _ w refl
  check_parts-Gate (scheme ∷ token ∷ []) w =
      elim (Bool-cases (same_text (to_lower scheme) (codes "bearer"))) [
        | inl bearer ↦ rw bearer (check_token-Gate token w)
        | inr other ↦ refused "Invalid authorization header format" w (rw other)
      ]
  check_parts-Gate (a ∷ b ∷ c ∷ rest) w = refused _ w refl

  -- The handler behind the middleware runs only with the user's ID of a token that the service
  -- accepts; every other request is answered with 401 or ends with the library's panic.
  pub jwt_middleware-Gate : (header : Text) (w : W) → Gate w (jwt_middleware lib s header next w)
  unfolding jwt_middleware
  jwt_middleware-Gate [] w = refused "Missing authorization header" w refl
  jwt_middleware-Gate (c ∷ header) w = check_parts-Gate (split_blank [] (c ∷ header)) w
