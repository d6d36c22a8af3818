-- ===== src/Validation.antt =====
-- internal/validation/validator.go
pub mod Safe
pub mod Tests
use route_planner.Prelude.{
  ℕ, String, ◌<>◌, Bool, true, false, not, ◌&&◌, ◌||◌, Option, none, some, List, [], ◌∷◌, leb, ◌==◌,
  if◌then◌else◌, any,
}
use route_planner.Prelude.Text.{Text, codes, str_eq}
use route_planner.Errors.{other}
use route_planner.Effects.{Outcome, ok, err}

-- One entry of the library's `ValidationErrors`.
pub record FieldError : Type 0 where
  pub field : String
  pub tag : String

-- `validate.Var` of the library, and for each request type `validate.Struct`, which applies the
-- registered check of `safe_content` and returns no entry if it accepts the value.
pub record Validator (R : Type 0) : Type 0 where
  pub struct : (Text → Bool) → R → List FieldError

pub record VarValidator : Type 0 where
  pub var : String → String → Bool

-- `errorsMap[key] = value`
abbrev set_entry : String → String → List (String × String) → List (String × String)
set_entry key value [] = (key, value) ∷ []
set_entry key value ((k, v) ∷ m) =
    if str_eq k key then (k, value) ∷ m else (k, v) ∷ set_entry key value m

abbrev field_message : FieldError → String
field_message e =
    if str_eq e.tag "safe_content"
    then "Field '" <> (e.field <> "' contains potentially unsafe content.")
    else "Field '" <> (e.field <> ("' failed validation: tag '" <> (e.tag <> "'.")))

abbrev errors_map : List (String × String) → List FieldError → List (String × String)
errors_map m [] = m
errors_map m (e ∷ es) = errors_map (set_entry e.field (field_message e) m) es

-- Does `on\w+=` go on here, after at least one word character?
abbrev pub is_word_char : ℕ → Bool
is_word_char c =
    (leb b'0' c && leb c b'9')
    || (leb b'A' c && leb c b'Z')
    || c == b'_'
    || (leb b'a' c && leb c b'z')

event_rest : Text → Bool
event_rest [] = false
event_rest (c ∷ s) = c == b'=' || (is_word_char c && event_rest s)

event_name : Text → Bool
unfolding event_rest
event_name [] = false
event_name (c ∷ s) = is_word_char c && event_rest s

abbrev pub starts_with : Text → Text → Bool
starts_with [] s = true
starts_with (p ∷ ps) [] = false
starts_with (p ∷ ps) (c ∷ s) = p == c && starts_with ps s

-- `[<>{}\\]`
abbrev pub brackets : Text
brackets = codes "<>{}\\"

abbrev pub unsafe_words : List Text
unsafe_words = codes "javascript:" ∷ codes "data:" ∷ codes "&lt;" ∷ codes "&gt;" ∷ codes "&#" ∷ []

-- Does the text begin with one of the brackets?
abbrev starts_bracket : Text → Bool
starts_bracket [] = false
starts_bracket (c ∷ _) = any (λ b. b == c) brackets

-- `on\w+=`
abbrev starts_event : Text → Bool
unfolding event_name
starts_event [] = false
starts_event (o ∷ []) = false
starts_event (o ∷ n ∷ s) = o == b'o' && (n == b'n' && event_name s)

-- Does the pattern match here?
unsafe_here : Text → Bool
unfolding event_name
unsafe_here s = starts_bracket s || any (λ w. starts_with w s) unsafe_words || starts_event s

-- `unsafePattern.MatchString`: does the pattern match anywhere?
match_string : Text → Bool
unfolding unsafe_here
match_string [] = unsafe_here []
match_string (c ∷ s) = unsafe_here (c ∷ s) || match_string s

pub is_safe_content : Text → Bool
unfolding match_string
is_safe_content s = not (match_string s)

-- The map of the errors, or `none` (nil) if there is none.
abbrev as_map : List FieldError → Option (List (String × String))
as_map [] = none
as_map (e ∷ es) = some (errors_map [] (e ∷ es))

unfoldable pub validate_request : {R : Type 0} → Validator R → R → Option (List (String × String))
unfolding is_safe_content
validate_request v r = as_map (v.struct is_safe_content r)

unfoldable pub validate_id : VarValidator → String → Outcome String
validate_id v id = if v.var id "required,uuid" then ok id else err (other "ID must be a valid UUID")
