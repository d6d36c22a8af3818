-- ===== src/Config/Startup/Required.antt =====
-- The fields of the configuration that the validation requires.
use route_planner.Prelude.{
  ◌≡◌, refl, sym, ◌∙◌, ◌≢◌, ◌↔◌, inl, inr, subst, String, Bool, true, false, none, some,
}
use route_planner.Prelude.Text.{codes, str_eq}
use route_planner.Prelude.Int.{ℤ, pos}
use route_planner.Config.{
  Kind, string_kind, int_kind, bool_kind, other_kind, FieldSpec, Fields, end, leaf, struct, Value,
  string, int, bool, untouched, Values, atoi, Environment, text_for,
}
use route_planner.Config.Load.{Holds, Filled}
use route_planner.Config.Startup.{StructValidator}

-- A value that the library's rule `required` accepts: it is not the zero value of its type.
abbrev pub IsNonzero : Value → Type 0
IsNonzero (string text) = text ≢ ""
IsNonzero (int z) = z ≢ pos 0
IsNonzero (bool b) = b ≡ true
IsNonzero untouched = ⊥

-- The statement, if it is asked for.
abbrev pub Asked : Bool → Type 0 → Type 0
Asked true P = P
Asked false P = Unit

asked_map : {P Q : Type 0} (b : Bool) → (P → Q) → Asked b P → Asked b Q
asked_map true f h = f h
asked_map false f h = tt

abbrev pub is_required : FieldSpec → Bool
is_required f = str_eq f.validate "required"

-- Every field with the tag `required` is set.
abbrev pub RequiredSet : Fields → Values → Type 0
RequiredSet (leaf f rest) (Values.leaf v vs) =
    Asked (is_required f) (IsNonzero v) × RequiredSet rest vs
RequiredSet (struct name fields rest) (Values.struct inner vs) =
    RequiredSet fields inner × RequiredSet rest vs
RequiredSet fields vs = Unit

-- What the validator documents of the one rule that the configuration uses.
pub record IsValidator (v : StructValidator) : Type 0 where
  pub check_iff :
      (fields : Fields) (vs : Values) → (v.check fields vs ≡ none) ↔ RequiredSet fields vs

-- Every field of the struct, and of the structs in it.
abbrev pub AllFields : (FieldSpec → Type 0) → Fields → Type 0
AllFields P end = Unit
AllFields P (leaf f rest) = P f × AllFields P rest
AllFields P (struct name fields rest) = AllFields P fields × AllFields P rest

module _ (e : Environment) where
  -- A required field has a text, and if it is a number, one that is not 0.
  abbrev pub IsGiven : Kind → String → Type 0
  IsGiven string_kind text = text ≢ ""
  IsGiven int_kind text = (z : ℤ) × (atoi (codes text) ≡ some z) × (z ≢ pos 0)
  IsGiven bool_kind text = ⊥
  IsGiven (other_kind k) text = ⊥

  abbrev pub IsRequiredGiven : FieldSpec → Type 0
  IsRequiredGiven f = Asked (is_required f) (IsGiven f.kind (text_for e f))

  given : (k : Kind) (text : String) (v : Value) → Holds e k text v → IsNonzero v → IsGiven k text
  given string_kind text v holds set = rw holds at set
  given int_kind text v (inl (empty, zero_value)) set =
      let there : IsNonzero (int (pos 0)) = rw zero_value at set in absurd (there refl)
  given int_kind text v (inr (z, readable, value)) set =
      let there : IsNonzero (int z) = rw value at set in (z, readable, there)
  given bool_kind text v holds set = holds
  given (other_kind k) text v holds set = holds

  pub all_given :
      (fields : Fields) (vs : Values)
      → Filled e fields vs
      → RequiredSet fields vs
      → AllFields IsRequiredGiven fields
  all_given end vs filled set = tt
  all_given (leaf f rest) Values.end filled set = absurd filled
  all_given (leaf f rest) (Values.leaf v vs) (holds, filled) (one, others) = (
    asked_map (is_required f) (given f.kind (text_for e f) v holds) one,
    all_given rest vs filled others,
  )
  all_given (leaf f rest) (Values.struct inner vs) filled set = absurd filled
  all_given (struct name fields rest) Values.end filled set = absurd filled
  all_given (struct name fields rest) (Values.leaf v vs) filled set = absurd filled
  all_given (struct name fields rest) (Values.struct inner vs) (filled, filled') (set, set') =
      (all_given fields inner filled set, all_given rest vs filled' set')

  no_empty_number : (text : String) (z : ℤ) → text ≡ "" → atoi (codes text) ≢ some z
  unfolding atoi
  no_empty_number text z empty h = let nothing : none ≡ some z = rw empty at h in cc

  set_of_given :
      (k : Kind) (text : String) (v : Value) → Holds e k text v → IsGiven k text → IsNonzero v
  set_of_given string_kind text v holds there = rw holds there
  set_of_given int_kind text v (inl (empty, value)) (z, readable, nonzero) =
      absurd (no_empty_number text z empty readable)
  set_of_given int_kind text v (inr (z', readable', value)) (z, readable, nonzero) =
      let both : some z ≡ some z' = sym readable ∙ readable' in
      let same : z ≡ z' = cc in rw value (subst (λ x. x ≢ pos 0) same nonzero)
  set_of_given bool_kind text v holds there = absurd holds
  set_of_given (other_kind k) text v holds there = absurd holds

  pub all_set :
      (fields : Fields) (vs : Values)
      → Filled e fields vs
      → AllFields IsRequiredGiven fields
      → RequiredSet fields vs
  all_set end Values.end filled there = tt
  all_set end (Values.leaf v vs) filled there = tt
  all_set end (Values.struct inner vs) filled there = tt
  all_set (leaf f rest) Values.end filled there = tt
  all_set (leaf f rest) (Values.leaf v vs) (holds, filled) (one, others) = (
    asked_map (is_required f) (set_of_given f.kind (text_for e f) v holds) one,
    all_set rest vs filled others,
  )
  all_set (leaf f rest) (Values.struct inner vs) filled there = tt
  all_set (struct name fields rest) Values.end filled there = tt
  all_set (struct name fields rest) (Values.leaf v vs) filled there = tt
  all_set (struct name fields rest) (Values.struct inner vs) (filled, filled') (there, there') =
      (all_set fields inner filled there, all_set rest vs filled' there')
