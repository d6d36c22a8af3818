-- ===== src/Config/Kinds.antt =====
-- `mapEnvToStruct` of internal/configs/config.go and the types of the fields that it sets.
use route_planner.Prelude.{
  ◌≡◌, refl, subst, inl, inr, String, none, arith, Bool-cases, Option-cases,
}
use route_planner.Prelude.Text.{codes, str_eq}
use route_planner.Effects.{Outcome, ok, err, panic, ok_injective}
use route_planner.Config.{
  Kind, string_kind, int_kind, bool_kind, other_kind, FieldSpec, Fields, Value, string, int, bool,
  untouched, Values, Environment, ◌>>=◌, zero_value, text_for, atoi, parse_value, field_value,
  int_value, bool_value, map_env_to_struct,
}
use route_planner.Config.Atoi.{IsInt64, atoi-IsInt64}

-- The value is one of the Go type.
HasKind : Kind → Value → Type 0
HasKind string_kind (string text) = Unit {0}
HasKind int_kind (int z) = IsInt64 z
HasKind bool_kind (bool b) = Unit {0}
HasKind (other_kind k) untouched = Unit {0}
HasKind k v = ⊥

-- There is one value for each field, in the shape of the struct.
pub HasKinds : Fields → Values → Type 0
unfolding HasKind
HasKinds Fields.end Values.end = Unit {0}
HasKinds (Fields.leaf f rest) (Values.leaf v vs) = HasKind f.kind v × HasKinds rest vs
HasKinds (Fields.struct name fields rest) (Values.struct inner vs) =
    HasKinds fields inner × HasKinds rest vs
HasKinds fields vs = ⊥

zero_value-HasKind : (k : Kind) → HasKind k (zero_value k)
unfolding HasKind
zero_value-HasKind string_kind = tt
zero_value-HasKind int_kind = omega arith
zero_value-HasKind bool_kind = tt
zero_value-HasKind (other_kind k) = tt

bind_ok :
    {A B : Type 0} (o : Outcome A) (f : A → Outcome B) (b : B)
    → (o >>= f) ≡ ok b
    → (a : A) × (o ≡ ok a) × (f a ≡ ok b)
bind_ok (ok a) f b h = (a, refl, h)
bind_ok (err x) f b h = cc
bind_ok panic f b h = cc

module _ (e : Environment) where
  parse_value-HasKind :
      (k : Kind) (name text : String) (v : Value) → parse_value e k name text ≡ ok v → HasKind k v
  unfolding HasKind parse_value
  parse_value-HasKind string_kind name text v h =
      subst (HasKind string_kind) (ok_injective _ _ h) tt
  parse_value-HasKind int_kind name text v h = elim (Option-cases (atoi (codes text))) [
    | inl unread ↦
        let refused : ◌≡◌ {A = Outcome Value} (int_value e name text none) (ok v) =
          rw unread at h in
        cc
    | inr (z, read) ↦
        subst (HasKind int_kind) (ok_injective (int z) v (rw read at h))
          (atoi-IsInt64 (codes text) z read)
  ]
  parse_value-HasKind bool_kind name text v h = elim (Option-cases (e.parse_bool text)) [
    | inl unread ↦
        let refused : ◌≡◌ {A = Outcome Value} (bool_value e name text none) (ok v) =
          rw unread at h in
        cc
    | inr (b, read) ↦ subst (HasKind bool_kind) (ok_injective (bool b) v (rw read at h)) tt
  ]
  parse_value-HasKind (other_kind k) name text v h = cc

  field_value-HasKind : (f : FieldSpec) (v : Value) → field_value e f ≡ ok v → HasKind f.kind v
  unfolding field_value
  field_value-HasKind f v h = elim (Bool-cases (str_eq f.env "")) [
    | inl no_tag ↦
        subst (HasKind f.kind) (ok_injective _ v (rw no_tag at h)) (zero_value-HasKind f.kind)
    | inr tagged ↦ elim (Bool-cases (str_eq (text_for e f) "")) [
      | inl no_text ↦
          subst (HasKind f.kind) (ok_injective _ v (rw (tagged, no_text) at h))
            (zero_value-HasKind f.kind)
      | inr given ↦ parse_value-HasKind f.kind f.name (text_for e f) v (rw (tagged, given) at h)
    ]
  ]

  -- What is read for a struct has its shape, whatever its fields are and however they are nested: every
  -- field has a value of its Go type, every number is one of 64 bits, and a field of any other type is
  -- left as it is.
  pub map_env_to_struct-HasKinds :
      (fields : Fields) (vs : Values) → map_env_to_struct e fields ≡ ok vs → HasKinds fields vs
  unfolding HasKinds map_env_to_struct
  map_env_to_struct-HasKinds Fields.end vs h = subst (HasKinds Fields.end) (ok_injective _ vs h) tt
  map_env_to_struct-HasKinds (Fields.leaf f rest) vs h =
      let (v, set, then) = bind_ok (field_value e f) _ vs h in
      let (us, read, last) = bind_ok (map_env_to_struct e rest) _ vs then in
      subst (HasKinds (Fields.leaf f rest)) (ok_injective _ vs last)
        (field_value-HasKind f v set, map_env_to_struct-HasKinds rest us read)
  map_env_to_struct-HasKinds (Fields.struct name fields rest) vs h =
      let (inner, within, then) = bind_ok (map_env_to_struct e fields) _ vs h in
      let (us, read, last) = bind_ok (map_env_to_struct e rest) _ vs then in
      subst (HasKinds (Fields.struct name fields rest)) (ok_injective _ vs last)
        (map_env_to_struct-HasKinds fields inner within, map_env_to_struct-HasKinds rest us read)
