-- ===== src/Main/Boot/Read.antt =====
-- The settings that `main` reads are the environment's.
use text.Mathlib.TextEquality.{eq_iff}
use route_planner.Prelude.{
  ◌≡◌, ◌≢◌, refl, subst, inl, inr, String, Option, none, some, if◌then◌else◌, Bool-cases,
}
use route_planner.Prelude.Text.{codes, str_eq}
use route_planner.Config.{
  int_kind, FieldSpec, Fields, end, leaf, struct, Value, Values, Environment, atoi, text_for,
}
use route_planner.Config.Load.{Holds, Filled}
use route_planner.Config.Startup.{config_fields}
use route_planner.Main.Boot.Settings.{member, member_of, int_of, int_setting}

abbrev field_at : String → Fields → Option FieldSpec
field_at name end = none
field_at name (leaf f fields) =
    let rest = field_at name fields in if str_eq f.name name then some f else rest
field_at name (struct s inner fields) = field_at name fields

abbrev field_of : String → String → Fields → Option FieldSpec
field_of section name end = none
field_of section name (leaf f fields) = field_of section name fields
field_of section name (struct s inner fields) =
    let rest = field_of section name fields in
    if str_eq s section then field_at name inner else rest

module _ (e : Environment) where
  -- A field's value, as the environment gives it.
  abbrev IsRead : FieldSpec → Option Value → Type 0
  IsRead f o = (v : Value) × (o ≡ some v) × Holds e f.kind (text_for e f) v

  member-IsRead :
      (name : String) (fields : Fields) (vs : Values) (f : FieldSpec)
      → Filled e fields vs
      → field_at name fields ≡ some f
      → IsRead f (member name fields vs)
  member-IsRead name end vs f filled found = cc
  member-IsRead name (leaf g fields) Values.end f filled found = absurd filled
  member-IsRead name (leaf g fields) (Values.struct us vs) f filled found = absurd filled
  member-IsRead name (leaf g fields) (Values.leaf v vs) f (holds, filled) found =
      elim (Bool-cases (str_eq g.name name)) [
        | inl here ↦
            (let same : some g ≡ some f = rw here at found in
              let one : g ≡ f = cc in
              (v, rw here refl, subst (λ h. Holds e h.kind (text_for e h) v) one holds))
        | inr there ↦ rw there (member-IsRead name fields vs f filled (rw there at found))
      ]
  member-IsRead name (struct s inner fields) Values.end f filled found = absurd filled
  member-IsRead name (struct s inner fields) (Values.leaf v vs) f filled found = absurd filled
  member-IsRead name (struct s inner fields) (Values.struct us vs) f (filled, filled') found =
      member-IsRead name fields vs f filled' found

  member_of-IsRead :
      (section name : String) (fields : Fields) (vs : Values) (f : FieldSpec)
      → Filled e fields vs
      → field_of section name fields ≡ some f
      → IsRead f (member_of section name fields vs)
  member_of-IsRead section name end vs f filled found = cc
  member_of-IsRead section name (leaf g fields) Values.end f filled found = absurd filled
  member_of-IsRead section name (leaf g fields) (Values.struct us vs) f filled found = absurd filled
  member_of-IsRead section name (leaf g fields) (Values.leaf v vs) f (holds, filled) found =
      member_of-IsRead section name fields vs f filled found
  member_of-IsRead section name (struct s inner fields) Values.end f filled found = absurd filled
  member_of-IsRead section name (struct s inner fields) (Values.leaf v vs) f filled found =
      absurd filled
  member_of-IsRead section name (struct s inner fields) (Values.struct us vs) f (filled, filled')
        found =
      elim (Bool-cases (str_eq s section)) [
        | inl here ↦ rw here (member-IsRead name inner us f filled (rw here at found))
        | inr there ↦
            rw there (member_of-IsRead section name fields vs f filled' (rw there at found))
      ]

  -- The variable, or else this default.
  abbrev pub given_or : String → String → String
  given_or env default = if str_eq (e.getenv env) "" then default else e.getenv env

  given_or_there : (env default : String) → default ≢ "" → given_or env default ≢ ""
  given_or_there env default there empty = elim (Bool-cases (str_eq (e.getenv env) "")) [
    | inl unset ↦ there (rw unset at empty)
    | inr set ↦ cc (set, (eq_iff (e.getenv env) "").1 (rw set at empty))
  ]

  read_number :
      (text : String) (o : Option Value)
      → text ≢ ""
      → (v : Value) × (o ≡ some v) × Holds e int_kind text v
      → atoi (codes text) ≡ some (int_of o)
  read_number text o there (v, same, inl (empty, zero)) = absurd (there empty)
  read_number text o there (v, same, inr (z, readable, value)) = rw (same, value) readable

  -- A number with a default is the one that the variable's text denotes, or the default's.
  pub int_setting_lem :
      (section name env default : String) (f : FieldSpec) (cfg : Values)
      → Filled e config_fields cfg
      → field_of section name config_fields ≡ some f
      → f.kind ≡ int_kind
      → (f.env ≡ env) × (f.default ≡ default)
      → default ≢ ""
      → atoi (codes (given_or env default)) ≡ some (int_setting cfg section name)
  unfolding int_setting
  int_setting_lem section name env default f cfg filled found number (same_env, same_default)
        there =
      let (v, got, holds) = member_of-IsRead section name config_fields cfg f filled found in
      let text : text_for e f ≡ given_or env default = rw (same_env, same_default) refl in
      read_number (given_or env default) _ (given_or_there env default there)
        (v, got, rw (number, text) at holds)
