-- ===== src/Errors/Response.antt =====
-- internal/errors/response.go: the error answers of the handlers.
use route_planner.Prelude.{ℕ, String, List, Option, none, some}
use route_planner.Errors.{GoError, error_text}

-- The two fields of `ErrorResponse`; the JSON leaves out what is empty.
pub record ErrorResponse : Type 0 where
  pub error : String
  pub validation_errors : List (String × String)

-- An HTTP answer with a JSON body of the handler's own, an error body, or a plain string.
pub data Answer {ℓ} (A : Type ℓ) : Type ℓ where
  json : ℕ → A → Answer A
  failure : ℕ → ErrorResponse → Answer A
  plain : ℕ → String → Answer A

module _ {ℓ} {A : Type ℓ} where
  abbrev pub status : Answer A → ℕ
  status (json code _) = code
  status (failure code _) = code
  status (plain code _) = code

  unfoldable pub send_error : ℕ → String → Answer A
  send_error code text = failure code (record { error = text; validation_errors = List.[] })

  -- `none` is the nil error.
  unfoldable pub send_error_from_err : ℕ → Option GoError → Answer A
  unfolding send_error error_text
  send_error_from_err code none = send_error code "unknown error"
  send_error_from_err code (some e) = send_error code (error_text e)

  unfoldable pub send_validation_errors : List (String × String) → Answer A
  send_validation_errors errors = failure 400 (record { error = ""; validation_errors = errors })

  unfoldable pub bad_request : String → Answer A
  unfolding send_error
  bad_request text = send_error 400 text

  unfoldable pub bad_request_err : GoError → Answer A
  unfolding send_error_from_err
  bad_request_err e = send_error_from_err 400 (some e)

  unfoldable pub not_found : String → Answer A
  unfolding send_error
  not_found text = send_error 404 text

  unfoldable pub internal_error : GoError → Answer A
  unfolding send_error
  internal_error _ = send_error 500 "Internal server error"

  unfoldable pub invalid_json : Answer A
  unfolding bad_request
  invalid_json = bad_request "Invalid JSON format"

  unfoldable pub unauthorized_answer : String → Answer A
  unfolding send_error
  unauthorized_answer text = send_error 401 text
