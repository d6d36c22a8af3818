-- ===== src/Config.antt =====
-- internal/configs/config.go: the configuration is read from the environment. The reflection over
-- the struct is a recursion over a description of its fields, `config_fields`.
pub mod Atoi
pub mod Kinds
pub mod Load
pub mod Startup
pub mod Tests
use route_planner.Prelude.{
  ℕ, ◌+◌, ◌*◌, ◌-◌, ◌^◌, String, ◌<>◌, Bool, true, false, ◌&&◌, Option, none, some, List, [], ◌∷◌,
  leb, ltb, ◌==◌, if◌then◌else◌,
}
use route_planner.Prelude.Text.{Text, codes, str_eq}
use route_planner.Prelude.Int.{ℤ, pos, negsuc}
use route_planner.Errors.{GoError, other}
use route_planner.Effects.{Outcome, ok, err, panic}

-- `reflect.Kind`, as far as the code tells it apart.
pub data Kind : Type 0 where
  string_kind : Kind
  int_kind : Kind
  bool_kind : Kind
  other_kind : String → Kind

-- A field that is no struct, with its tags: an absent tag is the empty text.
pub record FieldSpec : Type 0 where
  pub name : String
  pub kind : Kind
  pub env : String
  pub default : String
  pub validate : String

-- The fields of a struct, in their order; a field may be a struct itself.
pub data Fields : Type 0 where
  end : Fields
  leaf : FieldSpec → Fields → Fields
  struct : String → Fields → Fields → Fields

-- The value of a field; a kind that is none of the three is never set.
pub data Value : Type 0 where
  string : String → Value
  int : ℤ → Value
  bool : Bool → Value
  untouched : Value

pub data Values : Type 0 where
  end : Values
  leaf : Value → Values → Values
  struct : Values → Values → Values

-- The digits as a number: `acc` is the value of those before.
abbrev is_digit : ℕ → Bool
is_digit c = leb b'0' c && leb c b'9'

pub read_digits : ℕ → Text → Option ℕ
read_digits acc [] = some acc
read_digits acc (c ∷ s) = if is_digit c then read_digits (10 * acc + (c - b'0')) s else none

-- A number without its sign: at least one digit.
unsigned : Text → Option ℕ
unfolding read_digits
unsigned [] = none
unsigned (c ∷ s) = read_digits 0 (c ∷ s)

-- The bounds of a 64-bit `int`.
abbrev within_positive : Option ℕ → Option ℤ
within_positive none = none
within_positive (some n) = if ltb n (2 ^ 63) then some (pos n) else none

abbrev minus : ℕ → ℤ
minus n = if n == 0 then pos 0 else negsuc (n - 1)

abbrev within_negative : Option ℕ → Option ℤ
within_negative none = none
within_negative (some n) = if leb n (2 ^ 63) then some (minus n) else none

-- `strconv.Atoi`
pub atoi : Text → Option ℤ
unfolding unsigned
atoi [] = none
atoi (c ∷ s) =
    if c == b'-'
    then within_negative (unsigned s)
    else if c == b'+'
    then within_positive (unsigned s)
    else within_positive (unsigned (c ∷ s))

-- The environment (`os.Getenv` gives the empty text for an unset variable), `fmt`'s `%q`, and
-- `strconv.ParseBool`, which no field of this configuration needs.
pub record Environment : Type 0 where
  pub getenv : String → String
  pub quote : String → String
  pub parse_bool : String → Option Bool

infixl 5 ◌>>=◌
abbrev pub ◌>>=◌ : {A B : Type 0} → Outcome A → (A → Outcome B) → Outcome B
ok a >>= f = f a
err e >>= f = err e
panic >>= f = panic

abbrev pub zero_value : Kind → Value
zero_value string_kind = string ""
zero_value int_kind = int (pos 0)
zero_value bool_kind = bool false
zero_value (other_kind k) = untouched

module _ (e : Environment) where
  -- The variable, or else the default.
  abbrev pub text_for : FieldSpec → String
  text_for f = if str_eq (e.getenv f.env) "" then f.default else e.getenv f.env

  abbrev invalid : String → String → String → GoError
  invalid name what text = other ("field " <> (name <> (": invalid " <> (what <> e.quote text))))

  abbrev int_value : String → String → Option ℤ → Outcome Value
  int_value name text (some z) = ok (int z)
  int_value name text none = err (invalid name "int value " text)

  abbrev bool_value : String → String → Option Bool → Outcome Value
  bool_value name text (some b) = ok (bool b)
  bool_value name text none = err (invalid name "bool value " text)

  -- The `switch` over the kinds.
  pub parse_value : Kind → String → String → Outcome Value
  unfolding atoi
  parse_value string_kind name text = ok (string text)
  parse_value int_kind name text = int_value name text (atoi (codes text))
  parse_value bool_kind name text = bool_value name text (e.parse_bool text)
  parse_value (other_kind k) name text =
      err (other ("field " <> (name <> (": unsupported type " <> k))))

  -- One turn of the loop over the fields: no tag, no text, or a value.
  pub field_value : FieldSpec → Outcome Value
  unfolding parse_value
  field_value f =
      if str_eq f.env ""
      then ok (zero_value f.kind)
      else if str_eq (text_for f) ""
      then ok (zero_value f.kind)
      else parse_value f.kind f.name (text_for f)

  pub map_env_to_struct : Fields → Outcome Values
  unfolding field_value
  map_env_to_struct end = ok end
  map_env_to_struct (leaf f rest) =
      field_value f >>= λ v. map_env_to_struct rest >>= λ vs. ok (leaf v vs)
  map_env_to_struct (struct name fields rest) =
      map_env_to_struct fields >>= λ inner. map_env_to_struct rest >>= λ vs. ok (struct inner vs)
