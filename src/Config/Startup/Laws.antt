-- ===== src/Config/Startup/Laws.antt =====
-- When the program starts.
use route_planner.Prelude.{
  ◌≡◌, refl, ap, sym, ◌∙◌, ◌≢◌, ◌↔◌, ◌⊎◌, inl, inr, subst, Option, none, some,
}
use route_planner.Errors.{GoError}
use route_planner.Effects.{Outcome, ok, err, panic}
use route_planner.Config.{Values, Environment, ◌>>=◌, map_env_to_struct}
use route_planner.Config.Load.{
  AnyField, IsMalformed, Filled, map_env_to_struct-err_iff, map_env_to_struct-Filled,
  map_env_to_struct_total,
}
use route_planner.Config.Startup.{
  config_fields, StructValidator, panicked, loaded, load_or_panic, validated, started, load_config,
  validate_config, start_config,
}
use route_planner.Config.Startup.Required.{
  IsValidator, AllFields, IsRequiredGiven, all_given, all_set,
}

module _ (e : Environment) where
  module _ (v : StructValidator) where
    validated_parts :
        (vs cfg : Values) (o : Option GoError)
        → started (validated vs o) ≡ loaded cfg
        → (vs ≡ cfg) × (o ≡ none)
    validated_parts vs cfg none h = (cc, refl)
    validated_parts vs cfg (some x) h = cc

    start_parts :
        (o : Outcome Values) (cfg : Values)
        → started (load_or_panic o >>= validate_config e v) ≡ loaded cfg
        → (o ≡ ok cfg) × (v.check config_fields cfg ≡ none)
    unfolding validate_config
    start_parts (ok vs) cfg h =
        let (same, checked) = validated_parts vs cfg (v.check config_fields vs) h in
        (ap ok same, subst (λ c. v.check config_fields c ≡ none) same checked)
    start_parts (err x) cfg h = cc
    start_parts panic cfg h = cc

    not_panicked : (o : Option GoError) (vs : Values) → started (validated vs o) ≢ panicked
    not_panicked none vs h = cc
    not_panicked (some x) vs h = cc

    panicked_parts :
        (o : Outcome Values)
        → started (load_or_panic o >>= validate_config e v) ≡ panicked
        → ((x : GoError) × (o ≡ err x)) ⊎ (o ≡ panic)
    unfolding validate_config
    panicked_parts (ok vs) h = absurd (not_panicked (v.check config_fields vs) vs h)
    panicked_parts (err x) h = inl (x, refl)
    panicked_parts panic h = inr refl

  never_panics : map_env_to_struct e config_fields ≢ panic
  never_panics h = elim (map_env_to_struct_total e config_fields refl) [
    | inl (vs, mapped, fine) ↦ let both : ok vs ≡ panic = sym mapped ∙ h in cc
    | inr (x, failed) ↦ let both : err x ≡ panic = sym failed ∙ h in cc
  ]

  panicked-IsMalformed :
      (o : Outcome Values)
      → map_env_to_struct e config_fields ≡ o
      → ((x : GoError) × (o ≡ err x)) ⊎ (o ≡ panic)
      → AnyField (IsMalformed e) config_fields
  panicked-IsMalformed o same (inl (x, failed)) =
      (map_env_to_struct-err_iff e config_fields refl).0 (x, same ∙ failed)
  panicked-IsMalformed o same (inr failed) = absurd (never_panics (same ∙ failed))

  loaded_given :
      (v : StructValidator)
      → IsValidator v
      → (cfg : Values) → start_config e v ≡ loaded cfg
      → ¬ AnyField (IsMalformed e) config_fields × AllFields (IsRequiredGiven e) config_fields
  unfolding start_config load_config
  loaded_given v lawful cfg h =
      let (mapped, checked) = start_parts v (map_env_to_struct e config_fields) cfg h in
      (
        λ m.
            (let (x, failed) = (map_env_to_struct-err_iff e config_fields refl).1 m in
              let both : err x ≡ ok cfg = sym failed ∙ mapped in cc),
        all_given e config_fields cfg (map_env_to_struct-Filled e config_fields cfg refl mapped)
            ((lawful.check_iff config_fields cfg).0 checked),
      )

  given_loaded :
      (v : StructValidator)
      → IsValidator v
      → ¬ AnyField (IsMalformed e) config_fields
      → AllFields (IsRequiredGiven e) config_fields
      → (cfg : Values) × (start_config e v ≡ loaded cfg)
  unfolding start_config load_config validate_config
  given_loaded v lawful fine there = elim (map_env_to_struct_total e config_fields refl) [
    | inl (vs, mapped, none_bad) ↦
        let checked = (lawful.check_iff config_fields vs).1 (
          all_set e config_fields vs (map_env_to_struct-Filled e config_fields vs refl mapped)
            there) in
        (vs, rw (mapped, checked) refl)
    | inr (x, failed) ↦
        absurd (fine ((map_env_to_struct-err_iff e config_fields refl).0 (x, failed)))
  ]

  -- What has been loaded is what the environment gives.
  pub loaded-Filled :
      (v : StructValidator) (cfg : Values)
      → start_config e v ≡ loaded cfg
      → Filled e config_fields cfg
  unfolding start_config load_config
  loaded-Filled v cfg h =
      map_env_to_struct-Filled e config_fields cfg refl
        (start_parts v (map_env_to_struct e config_fields) cfg h).0

  -- The start panics exactly when the text for some number of the configuration, the variable's or the
  -- default, is there and is no 64-bit integer.
  pub start_config-panicked_iff :
      (v : StructValidator) → (start_config e v ≡ panicked) ↔ AnyField (IsMalformed e) config_fields
  unfolding start_config load_config
  start_config-panicked_iff v = (
    λ h. panicked-IsMalformed (map_env_to_struct e config_fields) refl (panicked_parts v _ h),
    λ m. (let (x, failed) = (map_env_to_struct-err_iff e config_fields refl).1 m in rw failed refl),
  )

  -- The program gets past its configuration exactly when no number of it has a text that is there and is
  -- no 64-bit integer, every required text is there, and every required number, as the timeout of the
  -- route API, is there and not 0.
  pub start_config-loaded_iff :
      (v : StructValidator)
      → IsValidator v
      → ((cfg : Values) × (start_config e v ≡ loaded cfg))
        ↔ (¬ AnyField (IsMalformed e) config_fields × AllFields (IsRequiredGiven e) config_fields)
  unfolding start_config load_config validate_config
  start_config-loaded_iff v lawful =
      (λ h. loaded_given v lawful h.0 h.1, λ g. given_loaded v lawful g.0 g.1)
