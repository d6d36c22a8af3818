-- ===== src/Api/Bodies.antt =====
-- The IDs and the bodies that the endpoints of /{id} turn down before the service is called.
use text.Mathlib.TextEquality.{eq_iff}
use mathlib.Core.Option.{some-injective}
use route_planner.Prelude.{
  ◌≡◌, ◌⊎◌, refl, sym, subst, ◌∙◌, inl, inr, String, true, false, Option, none, some, List,
  Bool-cases, true-false,
}
use route_planner.Prelude.Text.{str_eq}
use route_planner.Errors.Response.{Answer, send_validation_errors, invalid_json}
use route_planner.Validation.{Validator, VarValidator, validate_request}

-- An ID that the validation accepts is not the empty one, which it requires not to be.
pub not_blank :
    (ids : VarValidator) (id : String)
    → ids.var "" "required,uuid" ≡ false
    → ids.var id "required,uuid" ≡ true
    → str_eq id "" ≡ false
not_blank ids id blank valid = elim (Bool-cases (str_eq id "")) [
  | inl empty ↦
      let accepted = subst (λ s. ids.var s "required,uuid" ≡ true) ((eq_iff id "").0 empty) valid in
      absurd (true-false (sym accepted ∙ blank))
  | inr other ↦ other
]

module _ {R : Type 0} (Done : Type 0) (updates : Validator R) where
  abbrev pub validation_refused : Option (List (String × String)) → Option (Answer Done)
  unfolding send_validation_errors
  validation_refused none = none
  validation_refused (some errors) = some (send_validation_errors errors)

  -- The answer to a body that does not parse or that the validation rejects.
  abbrev pub body_refused : Option R → Option (Answer Done)
  unfolding validate_request invalid_json
  body_refused none = some invalid_json
  body_refused (some u) = validation_refused (validate_request updates u)

  pub fit_body :
      (body : Option R)
      → body_refused body ≡ none
      → (u : R) × (body ≡ some u) × (validate_request updates u ≡ none)
  unfolding body_refused send_validation_errors
  fit_body none fits = cc
  fit_body (some u) fits = (u, refl, go (validate_request updates u) fits)
    where
      go : (o : Option (List (String × String))) → validation_refused o ≡ none → o ≡ none
      go none e = refl
      go (some errors) e = cc

  pub unfit_body :
      (body : Option R) (answer : Answer Done)
      → body_refused body ≡ some answer
      → ((body ≡ none) × (answer ≡ invalid_json))
        ⊎ ((u : R) × (errors : List (String × String)) × (body ≡ some u)
            × (validate_request updates u ≡ some errors)
            × (answer ≡ send_validation_errors errors))
  unfolding body_refused send_validation_errors
  unfit_body none answer e = inl (refl, sym (some-injective _ _ e))
  unfit_body (some u) answer e =
      let (errors, invalid, same) = go (validate_request updates u) e in
      inr (u, errors, refl, invalid, same)
    where
      go :
          (o : Option (List (String × String)))
          → validation_refused o ≡ some answer
          → (errors : List (String × String)) × (o ≡ some errors)
            × (answer ≡ send_validation_errors errors)
      go none e = cc
      go (some errors) e = (errors, refl, sym (some-injective _ _ e))
