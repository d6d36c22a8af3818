-- ===== src/Config/Load.antt =====
-- `mapEnvToStruct`: which environments are read without an error, and what is read from them.
use text.Mathlib.TextEquality.{eq_iff}
use route_planner.Prelude.{
  ◌≡◌, refl, ap, sym, ◌∙◌, ◌≢◌, ◌↔◌, subst, ◌⊎◌, inl, inr, String, Bool, true, false, not, ◌&&◌,
  none, some, and_both, Bool-cases, Option-cases, arith,
}
use route_planner.Prelude.Text.{codes, str_eq}
use route_planner.Prelude.Int.{ℤ, pos}
use route_planner.Errors.{GoError}
use route_planner.Effects.{ok, err}
use route_planner.Config.{
  Kind, string_kind, int_kind, bool_kind, other_kind, FieldSpec, Fields, end, leaf, struct, Value,
  string, int, Values, atoi, Environment, text_for, invalid, field_value, map_env_to_struct,
}

-- Some field of the struct, or of a struct in it.
abbrev pub AnyField : (FieldSpec → Type 0) → Fields → Type 0
AnyField P end = ⊥
AnyField P (leaf f rest) = P f ⊎ AnyField P rest
AnyField P (struct name fields rest) = AnyField P fields ⊎ AnyField P rest

-- Every field has a variable, and is a text or a number.
abbrev pub is_plain_field : Kind → String → Bool
is_plain_field string_kind env = not (str_eq env "")
is_plain_field int_kind env = not (str_eq env "")
is_plain_field bool_kind env = false
is_plain_field (other_kind k) env = false

abbrev pub is_plain : Fields → Bool
is_plain end = true
is_plain (leaf f rest) = is_plain_field f.kind f.env && is_plain rest
is_plain (struct name fields rest) = is_plain fields && is_plain rest

module _ (e : Environment) where
  -- The field is a number, and its text is there and no 64-bit integer.
  pub record IsMalformed (f : FieldSpec) : Type 0 where
    pub a_number : f.kind ≡ int_kind
    pub there : text_for e f ≢ ""
    pub unreadable : atoi (codes (text_for e f)) ≡ none

  -- What a field holds: its text, its number, or the zero value where there is no text.
  abbrev pub Holds : Kind → String → Value → Type 0
  Holds string_kind text v = v ≡ string text
  Holds int_kind text v =
      ((text ≡ "") × (v ≡ int (pos 0))) ⊎ ((z : ℤ) × (atoi (codes text) ≡ some z) × (v ≡ int z))
  Holds bool_kind text v = ⊥
  Holds (other_kind k) text v = ⊥

  abbrev pub Filled : Fields → Values → Type 0
  Filled end Values.end = Unit
  Filled end _ = ⊥
  Filled (leaf f rest) (Values.leaf v vs) = Holds f.kind (text_for e f) v × Filled rest vs
  Filled (leaf f rest) _ = ⊥
  Filled (struct name fields rest) (Values.struct inner vs) = Filled fields inner × Filled rest vs
  Filled (struct name fields rest) _ = ⊥

  -- The two ways that reading one field can end.
  data Read (f : FieldSpec) : Type 0 where
    good :
        (v : Value)
        → field_value e f ≡ ok v
        → Holds f.kind (text_for e f) v
        → (IsMalformed f → ⊥)
        → Read f
    bad : (x : GoError) → field_value e f ≡ err x → IsMalformed f → Read f

  Read-string : (f : FieldSpec) → f.kind ≡ string_kind → str_eq f.env "" ≡ false → Read f
  unfolding field_value
  Read-string f kind tagged =
      let no_number : IsMalformed f → ⊥ =
        λ m. let both : string_kind ≡ int_kind = sym kind ∙ m.a_number in cc in
      elim (Bool-cases (str_eq (text_for e f) "")) [
        | inl blank ↦
            good (string "") (rw (tagged, blank, kind) refl)
              (rw kind (ap string (sym ((eq_iff (text_for e f) "").0 blank)))) no_number
        | inr there ↦
            good (string (text_for e f)) (rw (tagged, there, kind) refl) (rw kind refl) no_number
      ]

  Read-int : (f : FieldSpec) → f.kind ≡ int_kind → str_eq f.env "" ≡ false → Read f
  unfolding field_value
  Read-int f kind tagged = elim (Bool-cases (str_eq (text_for e f) "")) [
    | inl blank ↦
        let empty : text_for e f ≡ "" = (eq_iff (text_for e f) "").0 blank in
        good (int (pos 0)) (rw (tagged, blank, kind) refl) (rw kind (inl (empty, refl)))
          (λ m. m.there empty)
    | inr there ↦ (elim (Option-cases (atoi (codes (text_for e f)))) [
      | inl unreadable ↦
          bad (invalid e f.name "int value " (text_for e f))
            (rw (tagged, there, kind, unreadable) refl)
            (record {
              a_number = kind;
              there = λ empty. cc ((eq_iff (text_for e f) "").1 empty, there);
              unreadable = unreadable;
            })
      | inr (z, readable) ↦
          good (int z) (rw (tagged, there, kind, readable) refl) (rw kind (inr (z, readable, refl)))
            (λ m. let both : none ≡ some z = sym m.unreadable ∙ readable in cc)
    ])
  ]

  Read-kind : (f : FieldSpec) (k : Kind) → f.kind ≡ k → is_plain_field k f.env ≡ true → Read f
  Read-kind f string_kind kind plain = Read-string f kind (ground arith)
  Read-kind f int_kind kind plain = Read-int f kind (ground arith)
  Read-kind f bool_kind kind plain = cc
  Read-kind f (other_kind k) kind plain = cc

  -- The two ways that reading a struct can end.
  data Mapped (fields : Fields) : Type 0 where
    filled :
        (vs : Values)
        → map_env_to_struct e fields ≡ ok vs
        → Filled fields vs
        → (AnyField IsMalformed fields → ⊥)
        → Mapped fields
    refused :
        (x : GoError)
        → map_env_to_struct e fields ≡ err x
        → AnyField IsMalformed fields
        → Mapped fields

  leaf-Mapped : (f : FieldSpec) (rest : Fields) → Read f → Mapped rest → Mapped (leaf f rest)
  unfolding map_env_to_struct
  leaf-Mapped f rest (bad x failed m) later = refused x (rw failed refl) (inl m)
  leaf-Mapped f rest (good v read holds fine) (refused x failed m) =
      refused x (rw (read, failed) refl) (inr m)
  leaf-Mapped f rest (good v read holds fine) (filled vs mapped all none_bad) =
      filled (Values.leaf v vs) (rw (read, mapped) refl) (holds, all)
        (λ m. elim m [ inl here ↦ fine here | inr there ↦ none_bad there ])

  struct-Mapped :
      (name : String) (fields rest : Fields)
      → Mapped fields
      → Mapped rest
      → Mapped (struct name fields rest)
  unfolding map_env_to_struct
  struct-Mapped name fields rest (refused x failed m) later = refused x (rw failed refl) (inl m)
  struct-Mapped name fields rest (filled inner mapped all none_bad) (refused x failed m) =
      refused x (rw (mapped, failed) refl) (inr m)
  struct-Mapped name fields rest (filled inner mapped all none_bad)
        (filled vs mapped' all' none_bad') =
      filled (Values.struct inner vs) (rw (mapped, mapped') refl) (all, all')
        (λ m. elim m [ inl here ↦ none_bad here | inr there ↦ none_bad' there ])

  map_fields : (fields : Fields) → is_plain fields ≡ true → Mapped fields
  unfolding map_env_to_struct
  map_fields end plain = filled Values.end refl tt (λ m. m)
  map_fields (leaf f rest) plain =
      let (one, others) = and_both (is_plain_field f.kind f.env) (is_plain rest) plain in
      leaf-Mapped f rest (Read-kind f f.kind refl one) (map_fields rest others)
  map_fields (struct name fields rest) plain =
      let (inner, others) = and_both (is_plain fields) (is_plain rest) plain in
      struct-Mapped name fields rest (map_fields fields inner) (map_fields rest others)

  failed_for :
      (fields : Fields) (x : GoError)
      → Mapped fields
      → map_env_to_struct e fields ≡ err x
      → AnyField IsMalformed fields
  failed_for fields x (filled vs mapped all none_bad) h =
      let both : ok vs ≡ err x = sym mapped ∙ h in cc
  failed_for fields x (refused y failed m) h = m

  malformed_fails :
      (fields : Fields)
      → Mapped fields
      → AnyField IsMalformed fields
      → (x : GoError) × (map_env_to_struct e fields ≡ err x)
  malformed_fails fields (filled vs mapped all none_bad) m = absurd (none_bad m)
  malformed_fails fields (refused x failed m') m = (x, failed)

  values-Filled :
      (fields : Fields) (vs : Values)
      → Mapped fields
      → map_env_to_struct e fields ≡ ok vs
      → Filled fields vs
  values-Filled fields vs (filled us mapped all none_bad) h =
      let both : ok us ≡ ok vs = sym mapped ∙ h in
      let same : us ≡ vs = cc in subst (Filled fields) same all
  values-Filled fields vs (refused x failed m) h = let both : err x ≡ ok vs = sym failed ∙ h in cc

  -- For fields that are texts and numbers, reading fails exactly when some number's variable, or its
  -- default, has a text that is no 64-bit integer.
  pub map_env_to_struct-err_iff :
      (fields : Fields)
      → is_plain fields ≡ true
      → ((x : GoError) × (map_env_to_struct e fields ≡ err x)) ↔ AnyField IsMalformed fields
  map_env_to_struct-err_iff fields plain = (
    λ h. failed_for fields h.0 (map_fields fields plain) h.1,
    λ m. malformed_fails fields (map_fields fields plain) m,
  )

  -- What is read for such fields: every text is the variable's or the default, every number is the one that
  -- this text denotes, and 0 where there is no text.
  pub map_env_to_struct-Filled :
      (fields : Fields) (vs : Values)
      → is_plain fields ≡ true
      → map_env_to_struct e fields ≡ ok vs
      → Filled fields vs
  map_env_to_struct-Filled fields vs plain h = values-Filled fields vs (map_fields fields plain) h

  Mapped-outcome :
      (fields : Fields)
      → Mapped fields
      → ((vs : Values) × (map_env_to_struct e fields ≡ ok vs) × (AnyField IsMalformed fields → ⊥))
        ⊎ ((x : GoError) × (map_env_to_struct e fields ≡ err x))
  Mapped-outcome fields (filled vs mapped all none_bad) = inl (vs, mapped, none_bad)
  Mapped-outcome fields (refused x failed m) = inr (x, failed)

  -- Reading such fields gives values, and then no text is malformed, or an error; it never panics.
  pub map_env_to_struct_total :
      (fields : Fields)
      → is_plain fields ≡ true
      → ((vs : Values) × (map_env_to_struct e fields ≡ ok vs) × (AnyField IsMalformed fields → ⊥))
        ⊎ ((x : GoError) × (map_env_to_struct e fields ≡ err x))
  map_env_to_struct_total fields plain = Mapped-outcome fields (map_fields fields plain)
