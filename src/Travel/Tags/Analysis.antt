-- ===== src/Travel/Tags/Analysis.antt =====
-- Every way that `GetAllowedTags` and `AnalyzeRequest` can go.
use mathlib.Core.List.{Mem, mem-cons_self, mem-cons_of_mem}
use route_planner.Prelude.{
  ◌≡◌, ◌≢◌, refl, ap, String, true, false, List, [], ◌∷◌, any, Bool-cases, inl, inr, All,
}
use route_planner.Prelude.Text.{Text}
use route_planner.Prelude.Int.{scale64}
use route_planner.Errors.{GoError, sentinel, extraction_failed}
use route_planner.Effects.{Outcome, ok, err, panic}
use route_planner.Effects.Laws.{is_ok, is_err, is_panic, result}
use route_planner.Travel.{RouteService}
use route_planner.Travel.Tags.{has_tags, minute, get_allowed_tags, analyze_request}

some_tags :
    (groups : List (List String))
    → any has_tags groups ≡ true
    → (tags : List String) × Mem tags groups × (tags ≢ [])
some_tags [] h = cc
some_tags ([] ∷ groups) h =
    let (tags, there, some_tag) = some_tags groups h in (tags, mem-cons_of_mem [] there, some_tag)
some_tags ((tag ∷ tags) ∷ groups) h = (tag ∷ tags, mem-cons_self, λ e. cc)

no_tag_groups :
    (groups : List (List String)) → any has_tags groups ≡ false → All (λ tags. tags ≡ []) groups
no_tag_groups [] h = tt
no_tag_groups ([] ∷ groups) h = (refl, no_tag_groups groups h)
no_tag_groups ((tag ∷ tags) ∷ groups) h = cc

module _ {W : Type 0} (s : RouteService W) where
  -- The write to the cache, for the configured number of minutes.
  abbrev stored : List String → W → Outcome (Unit {0}) × W
  stored tags w = s.cache.set "allowed_tags" tags (scale64 s.tags_ttl minute) w

  -- The panic of one of the calls is passed up.
  pub data IsCrashed (w w' : W) : Type 0 where
    read_crashed : s.cache.get "allowed_tags" w ≡ (panic, w') → IsCrashed w w'
    query_crashed :
        (e : GoError) (w₁ : W)
        → s.cache.get "allowed_tags" w ≡ (err e, w₁)
        → s.repo.get_all_tags (s.counters.miss w₁) ≡ (panic, w')
        → IsCrashed w w'
    write_crashed :
        (e : GoError) (tags : List String) (w₁ w₂ : W)
        → s.cache.get "allowed_tags" w ≡ (err e, w₁)
        → s.repo.get_all_tags (s.counters.miss w₁) ≡ (ok tags, w₂)
        → stored tags w₂ ≡ (panic, w')
        → IsCrashed w w'

  -- The tags of the cache, counted as a hit and without a query; or, counted as a miss, those of the
  -- rows, which are written to the cache, whether the write succeeds or not; or the error of the query.
  pub data IsAllowed (w : W) (r : Outcome (List String) × W) : Type 0 where
    cached :
        (tags : List String) (w₁ : W)
        → s.cache.get "allowed_tags" w ≡ (ok tags, w₁)
        → r ≡ (ok tags, s.counters.hit w₁)
        → IsAllowed w r
    queried :
        (e : GoError) (tags : List String) (w₁ w₂ w₃ : W)
        → s.cache.get "allowed_tags" w ≡ (err e, w₁)
        → s.repo.get_all_tags (s.counters.miss w₁) ≡ (ok tags, w₂)
        → (stored tags w₂).1 ≡ w₃
        → r ≡ (ok tags, w₃)
        → IsAllowed w r
    unavailable :
        (e e' : GoError) (w₁ w₂ : W)
        → s.cache.get "allowed_tags" w ≡ (err e, w₁)
        → s.repo.get_all_tags (s.counters.miss w₁) ≡ (err e', w₂)
        → r ≡ (err e', w₂)
        → IsAllowed w r
    crashed : (w' : W) → IsCrashed w w' → r ≡ (panic, w') → IsAllowed w r

  get_allowed_tags-IsAllowed : (w : W) → IsAllowed w (get_allowed_tags s w)
  unfolding get_allowed_tags
  get_allowed_tags-IsAllowed w = elim (result (s.cache.get "allowed_tags" w)) [
    | is_ok tags w₁ hit ↦ cached tags w₁ hit (rw hit refl)
    | is_err e w₁ missed ↦ elim (result (s.repo.get_all_tags (s.counters.miss w₁))) [
      | is_ok tags w₂ found ↦ elim (result (stored tags w₂)) [
        | is_ok unit w₃ kept ↦
            queried e tags w₁ w₂ w₃ missed found (ap (λ r. r.1) kept)
              (rw (missed, found, kept) refl)
        | is_err e' w₃ lost ↦
            queried e tags w₁ w₂ w₃ missed found (ap (λ r. r.1) lost)
              (rw (missed, found, lost) refl)
        | is_panic w₃ h ↦
            crashed w₃ (write_crashed e tags w₁ w₂ missed found h) (rw (missed, found, h) refl)
      ]
      | is_err e' w₂ failed ↦ unavailable e e' w₁ w₂ missed failed (rw (missed, failed) refl)
      | is_panic w₂ h ↦ crashed w₂ (query_crashed e w₁ missed h) (rw (missed, h) refl)
    ]
    | is_panic w₁ h ↦ crashed w₁ (read_crashed h) (rw h refl)
  ]

  module _ (split : Text → List Text) (user_input : Text) where
    -- The segments of the text are given to the extractor with the allowed tags, and its groups are the
    -- answer if one of them has a tag.
    pub data IsAnalysis (w : W) (r : Outcome (List (List String)) × W) : Type 0 where
      found :
          (allowed : List String) (groups : List (List String)) (w₁ w₂ : W)
          → get_allowed_tags s w ≡ (ok allowed, w₁)
          → s.extractor.extract_multi_tags (split user_input) allowed w₁ ≡ (ok groups, w₂)
          → (tags : List String) × Mem tags groups × (tags ≢ [])
          → r ≡ (ok groups, w₂)
          → IsAnalysis w r
      nothing_found :
          (allowed : List String) (groups : List (List String)) (w₁ w₂ : W)
          → get_allowed_tags s w ≡ (ok allowed, w₁)
          → s.extractor.extract_multi_tags (split user_input) allowed w₁ ≡ (ok groups, w₂)
          → All (λ tags. tags ≡ []) groups
          → r ≡ (err (sentinel extraction_failed), w₂)
          → IsAnalysis w r
      not_extracted :
          (allowed : List String) (e : GoError) (w₁ w₂ : W)
          → get_allowed_tags s w ≡ (ok allowed, w₁)
          → s.extractor.extract_multi_tags (split user_input) allowed w₁ ≡ (err e, w₂)
          → r ≡ (err e, w₂)
          → IsAnalysis w r
      extraction_crashed :
          (allowed : List String) (w₁ w₂ : W)
          → get_allowed_tags s w ≡ (ok allowed, w₁)
          → s.extractor.extract_multi_tags (split user_input) allowed w₁ ≡ (panic, w₂)
          → r ≡ (panic, w₂)
          → IsAnalysis w r
      no_allowed_tags :
          (e : GoError) (w₁ : W)
          → get_allowed_tags s w ≡ (err e, w₁)
          → r ≡ (err e, w₁)
          → IsAnalysis w r
      tags_crashed :
          (w₁ : W) → get_allowed_tags s w ≡ (panic, w₁) → r ≡ (panic, w₁) → IsAnalysis w r

    analyzed : (w : W) → IsAnalysis w (analyze_request s split user_input w)
    unfolding analyze_request
    analyzed w = elim (result (get_allowed_tags s w)) [
      | is_ok allowed w₁ known ↦
          elim (result (s.extractor.extract_multi_tags (split user_input) allowed w₁)) [
            | is_ok groups w₂ extracted ↦ elim (Bool-cases (any has_tags groups)) [
              | inl there ↦
                  found allowed groups w₁ w₂ known extracted (some_tags groups there)
                    (rw (known, extracted, there) refl)
              | inr missing ↦
                  nothing_found allowed groups w₁ w₂ known extracted (no_tag_groups groups missing)
                    (rw (known, extracted, missing) refl)
            ]
            | is_err e w₂ failed ↦
                not_extracted allowed e w₁ w₂ known failed (rw (known, failed) refl)
            | is_panic w₂ h ↦ extraction_crashed allowed w₁ w₂ known h (rw (known, h) refl)
          ]
      | is_err e w₁ h ↦ no_allowed_tags e w₁ h (rw h refl)
      | is_panic w₁ h ↦ tags_crashed w₁ h (rw h refl)
    ]

    -- An analysis goes one of these ways. The allowed tags are those of the cache, or, when it has none,
    -- those of the rows, which are then written to it, whether that write succeeds or not. The extractor's
    -- groups for the segments of the text are the answer if a group has a tag, and `ErrExtractionFailed`
    -- if all are empty. The error of the query or of the extractor is the answer's, and a panic of a
    -- call is passed up.
    pub analyze_request-IsAnalysis :
        (w : W)
        → IsAllowed w (get_allowed_tags s w) × IsAnalysis w (analyze_request s split user_input w)
    analyze_request-IsAnalysis w = (get_allowed_tags-IsAllowed w, analyzed w)
