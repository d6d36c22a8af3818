-- ===== src/Errors.antt =====
-- internal/errors/errors.go and the errors of the libraries that the program calls.
pub mod Response
use route_planner.Prelude.{String, Bool, true, false}

-- The sentinel errors of internal/errors/errors.go, two of internal/auth/auth.go, and the two of
-- libraries that the program compares with or returns by name.
pub data Sentinel : Type 0 where
  invalid_input_data invalid_place_data invalid_user_data xss_detected : Sentinel
  unauthorized invalid_credentials invalid_token : Sentinel
  user_not_found place_not_found : Sentinel
  conflict : Sentinel
  no_places_found extraction_failed : Sentinel
  internal_server json_marshal_failed : Sentinel
  auth_invalid_token auth_missing_token : Sentinel
  record_not_found deadline_exceeded : Sentinel

-- A Go error: a sentinel, any other error with its text, or one that `fmt.Errorf` wraps by `%w`.
pub data GoError : Type 0 where
  sentinel : Sentinel → GoError
  other : String → GoError
  wrapped : String → GoError → GoError

-- The text of each sentinel.
unfoldable pub message : Sentinel → String
message invalid_input_data = "Invalid input data. Please check your request payload."
message invalid_place_data = "Invalid place data."
message invalid_user_data = "Invalid user data."
message xss_detected = "Input contains potentially unsafe content."
message unauthorized = "Authentication required."
message invalid_credentials = "Invalid email or password."
message invalid_token = "Invalid or expired token."
message user_not_found = "User not found."
message place_not_found = "Place not found."
message conflict = "Username or email already exists."
message no_places_found = "no places found for the selected categories in this radius"
message extraction_failed = "failed to identify your preferences. try to use more specific words"
message internal_server = "An unexpected server error occurred."
message json_marshal_failed = "Failed to process internal data."
message auth_invalid_token = "invalid or expired token"
message auth_missing_token = "missing authorization token"
message record_not_found = "record not found"
message deadline_exceeded = "context deadline exceeded"

-- `err.Error()`; a wrapped error carries its whole text.
unfoldable pub error_text : GoError → String
error_text (sentinel s) = message s
error_text (other text) = text
error_text (wrapped text _) = text

-- `==` on sentinels, which are pointers to different values.
abbrev pub same_sentinel : Sentinel → Sentinel → Bool
same_sentinel invalid_input_data invalid_input_data = true
same_sentinel invalid_place_data invalid_place_data = true
same_sentinel invalid_user_data invalid_user_data = true
same_sentinel xss_detected xss_detected = true
same_sentinel unauthorized unauthorized = true
same_sentinel invalid_credentials invalid_credentials = true
same_sentinel invalid_token invalid_token = true
same_sentinel user_not_found user_not_found = true
same_sentinel place_not_found place_not_found = true
same_sentinel conflict conflict = true
same_sentinel no_places_found no_places_found = true
same_sentinel extraction_failed extraction_failed = true
same_sentinel internal_server internal_server = true
same_sentinel json_marshal_failed json_marshal_failed = true
same_sentinel auth_invalid_token auth_invalid_token = true
same_sentinel auth_missing_token auth_missing_token = true
same_sentinel record_not_found record_not_found = true
same_sentinel deadline_exceeded deadline_exceeded = true
same_sentinel _ _ = false

-- `errors.Is(err, s)`
unfoldable pub errors_is : GoError → Sentinel → Bool
errors_is (sentinel t) s = same_sentinel t s
errors_is (other _) s = false
errors_is (wrapped _ e) s = errors_is e s
