-- ===== src/Config/Tests.antt =====
-- The start of the program in an environment that sets the required variables, and a validator that
-- knows the one rule of the configuration.
use text.Mathlib.TextEquality.{eq_iff}
use route_planner.Prelude.{
  zero, ◌≡◌, ◌↔◌, refl, Bool, true, false, not, ◌&&◌, Option, none, some, arith, suc, ◌≢◌,
}
use route_planner.Prelude.Text.{str_eq}
use route_planner.Prelude.Int.{pos, negsuc}
use route_planner.Errors.{GoError, other}
use route_planner.Effects.{ok}
use route_planner.Config.{
  Kind, int_kind, end, map_env_to_struct, field_value, parse_value, unsigned, read_digits, Fields,
  end, leaf, struct, Value, string, int, bool, untouched, Values, atoi, Environment,
}
use route_planner.Config.Load.{AnyField, IsMalformed}
use route_planner.Config.Startup.{
  load_config, validate_config, config_fields, StructValidator, loaded, start_config,
}
use route_planner.Config.Startup.Required.{
  IsNonzero, Asked, is_required, RequiredSet, IsValidator, AllFields, IsRequiredGiven,
}
use route_planner.Config.Startup.Laws.{start_config-loaded_iff}

-- Every variable has the text "10".
abbrev pub tens : Environment
tens = record { getenv = λ name. "10"; quote = λ text. text; parse_bool = λ text. none }

abbrev is_set : Value → Bool
is_set (string text) = not (str_eq text "")
is_set (int (pos zero)) = false
is_set (int (pos (suc n))) = true
is_set (int (negsuc n)) = true
is_set (bool b) = b
is_set untouched = false

is_set_iff : (v : Value) → (is_set v ≡ true) ↔ IsNonzero v
is_set_iff (string text) = (
  λ h e. (let same = (eq_iff text "").1 e in ground arith),
  λ h. set_text (str_eq text "") (λ e. h ((eq_iff text "").0 e)),
)
  where
    set_text : (b : Bool) → b ≢ true → not b ≡ true
    set_text true h = absurd (h refl)
    set_text false h = refl
is_set_iff (int (pos zero)) = (λ h. cc, λ h. absurd (h refl))
is_set_iff (int (pos (suc n))) = (λ h e. cc, λ h. refl)
is_set_iff (int (negsuc n)) = (λ h e. cc, λ h. refl)
is_set_iff (bool b) = (λ h. h, λ h. h)
is_set_iff untouched = (λ h. cc, λ h. absurd h)

-- The rule, if the field asks for it.
abbrev meets : Bool → Bool → Bool
meets true b = b
meets false b = true

abbrev all_set : Fields → Values → Bool
all_set (leaf f rest) (Values.leaf v vs) = meets (is_required f) (is_set v) && all_set rest vs
all_set (struct name fields rest) (Values.struct inner vs) = all_set fields inner && all_set rest vs
all_set (leaf f rest) _ = true
all_set (struct name fields rest) _ = true
all_set end _ = true

meets_iff : (b : Bool) (v : Value) → (meets b (is_set v) ≡ true) ↔ Asked b (IsNonzero v)
meets_iff true v = is_set_iff v
meets_iff false v = (λ h. tt, λ h. refl)

and_iff :
    {P Q : Type 0} (a b : Bool) → (a ≡ true) ↔ P → (b ≡ true) ↔ Q → ((a && b) ≡ true) ↔ (P × Q)
and_iff true b p q = (λ h. (p.0 refl, q.0 h), λ h. q.1 h.1)
and_iff false b p q = (λ h. cc, λ h. p.1 h.0)

all_set_iff : (fields : Fields) (vs : Values) → (all_set fields vs ≡ true) ↔ RequiredSet fields vs
all_set_iff (leaf f rest) (Values.leaf v vs) =
    and_iff (meets (is_required f) (is_set v)) (all_set rest vs) (meets_iff (is_required f) v)
      (all_set_iff rest vs)
all_set_iff (struct name fields rest) (Values.struct inner vs) =
    and_iff (all_set fields inner) (all_set rest vs) (all_set_iff fields inner)
      (all_set_iff rest vs)
all_set_iff (leaf f rest) Values.end = (λ h. tt, λ h. refl)
all_set_iff (leaf f rest) (Values.struct inner vs) = (λ h. tt, λ h. refl)
all_set_iff (struct name fields rest) Values.end = (λ h. tt, λ h. refl)
all_set_iff (struct name fields rest) (Values.leaf v vs) = (λ h. tt, λ h. refl)
all_set_iff end Values.end = (λ h. tt, λ h. refl)
all_set_iff end (Values.leaf v vs) = (λ h. tt, λ h. refl)
all_set_iff end (Values.struct inner vs) = (λ h. tt, λ h. refl)

abbrev error_if_unset : Bool → Option GoError
error_if_unset true = none
error_if_unset false = some (other "required")

error_if_unset_iff : (b : Bool) → (error_if_unset b ≡ none) ↔ (b ≡ true)
error_if_unset_iff true = (λ h. refl, λ h. refl)
error_if_unset_iff false = (λ h. cc, λ h. cc)

abbrev pub validator : StructValidator
validator = record { check = λ fields vs. error_if_unset (all_set fields vs) }

validator-IsValidator : IsValidator validator
validator-IsValidator = record {
  check_iff = λ fields vs. (
    λ h. (all_set_iff fields vs).0 ((error_if_unset_iff (all_set fields vs)).0 h),
    λ h. (error_if_unset_iff (all_set fields vs)).1 ((all_set_iff fields vs).1 h),
  );
}

abbrev ten : Kind → Value
ten int_kind = int (pos 10)
ten k = string "10"

abbrev filled : Fields → Values
filled end = Values.end
filled (leaf f rest) = Values.leaf (ten f.kind) (filled rest)
filled (struct name fields rest) = Values.struct (filled fields) (filled rest)

abbrev pub tens_config : Values
tens_config = filled config_fields

pub tens_loaded : start_config tens validator ≡ loaded tens_config
unfolding start_config load_config validate_config map_env_to_struct field_value parse_value atoi
    unsigned read_digits
tens_loaded = refl

start_config-loaded_iff_example :
    ((cfg : Values) × (start_config tens validator ≡ loaded cfg))
    ↔ (¬ AnyField (IsMalformed tens) config_fields × AllFields (IsRequiredGiven tens) config_fields)
start_config-loaded_iff_example = start_config-loaded_iff tens validator validator-IsValidator

tens_read : map_env_to_struct tens config_fields ≡ ok tens_config
unfolding map_env_to_struct field_value parse_value atoi unsigned read_digits
tens_read = refl
