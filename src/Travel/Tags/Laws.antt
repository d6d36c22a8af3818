-- ===== src/Travel/Tags/Laws.antt =====
-- The allowed tags, their cache, and the analysis of a request.
use route_planner.Prelude.{
  ◌≡◌, refl, ap, ◌∙◌, ◌≢◌, subst, String, true, false, List, [], ◌∷◌, any, Bool-cases, inl, inr,
  All,
}
use route_planner.Prelude.Text.{Text}
use route_planner.Prelude.Int.{ℤ, scale64}
use route_planner.Errors.{GoError, sentinel, extraction_failed}
use route_planner.Effects.{Outcome, ok, err, panic, ok_injective, pure, resume}
use route_planner.Effects.Laws.{>>=-eq-ok, outcome_pair}
use route_planner.Travel.{RouteService, Cache}
use route_planner.Travel.Tags.{has_tags, minute, require_tags, get_allowed_tags, analyze_request}

-- What Redis documents of a key that is set and has not expired: reading it gives the value.
pub record IsCache {W : Type 0} (c : Cache W) : Type 0 where
  pub get_set :
      (key : String) (value : List String) (ttl : ℤ) (w w' : W)
      → c.set key value ttl w ≡ (ok tt, w')
      → (c.get key w').0 ≡ ok value

no_tags :
    (groups : List (List String)) → All (λ tags. tags ≡ []) groups → any has_tags groups ≡ false
no_tags [] h = refl
no_tags (tags ∷ groups) h = rw h.0 (no_tags groups h.1)

module _ {W : Type 0} (s : RouteService W) where
  -- A hit answers from the cache and asks the repository nothing.
  pub get_allowed_tags_hit :
      (tags : List String) (w w' : W)
      → s.cache.get "allowed_tags" w ≡ (ok tags, w')
      → get_allowed_tags s w ≡ (ok tags, s.counters.hit w')
  unfolding get_allowed_tags
  get_allowed_tags_hit tags w w' h = rw h

  -- A miss answers with the repository's tags and writes them to the cache, for the configured
  -- number of minutes; whether that write succeeds or returns an error does not matter to the caller.
  pub get_allowed_tags_miss :
      (e : GoError) (tags : List String) (w w₁ w₂ : W)
      → s.cache.get "allowed_tags" w ≡ (err e, w₁)
      → s.repo.get_all_tags (s.counters.miss w₁) ≡ (ok tags, w₂)
      → (s.cache.set "allowed_tags" tags (scale64 s.tags_ttl minute) w₂).0 ≢ panic
      → get_allowed_tags s w
        ≡ (ok tags, (s.cache.set "allowed_tags" tags (scale64 s.tags_ttl minute) w₂).1)
  unfolding get_allowed_tags
  get_allowed_tags_miss e tags w w₁ w₂ missed queried stored =
      rw (missed, queried) (stored_anyway (s.cache.set "allowed_tags" tags _ w₂) stored)
    where
      stored_anyway :
          (r : Outcome (Unit {0}) × W)
          → r.0 ≢ panic
          → resume r (λ _. pure tags) (λ _. pure tags) ≡ (ok tags, r.1)
      stored_anyway (ok _, v) h = refl
      stored_anyway (err _, v) h = refl
      stored_anyway (panic, v) h = absurd (h refl)

  -- A repository that fails after a miss fails the call, and nothing is written to the cache.
  pub get_allowed_tags_failed :
      (e e' : GoError) (w w₁ w₂ : W)
      → s.cache.get "allowed_tags" w ≡ (err e, w₁)
      → s.repo.get_all_tags (s.counters.miss w₁) ≡ (err e', w₂)
      → get_allowed_tags s w ≡ (err e', w₂)
  unfolding get_allowed_tags
  get_allowed_tags_failed e e' w w₁ w₂ missed failed = rw (missed, failed)

  -- After a miss that filled the cache, a second call gives the same tags from the cache alone.
  pub get_allowed_tags_again :
      IsCache s.cache
      → (e : GoError) (tags : List String) (w w₁ w₂ w₃ : W)
      → s.cache.get "allowed_tags" w ≡ (err e, w₁)
      → s.repo.get_all_tags (s.counters.miss w₁) ≡ (ok tags, w₂)
      → s.cache.set "allowed_tags" tags (scale64 s.tags_ttl minute) w₂ ≡ (ok tt, w₃)
      → (get_allowed_tags s w ≡ (ok tags, w₃))
        × (get_allowed_tags s w₃ ≡ (ok tags, s.counters.hit (s.cache.get "allowed_tags" w₃).1))
  get_allowed_tags_again lawful e tags w w₁ w₂ w₃ missed queried stored = (
    get_allowed_tags_miss e tags w w₁ w₂ missed queried (λ p. cc) ∙ ap (λ r. (ok tags, r.1)) stored,
    get_allowed_tags_hit tags w₃ _
        (outcome_pair _ (lawful.get_set "allowed_tags" tags _ w₂ w₃ stored)),
  )

  require_tags_ok :
      (found groups : List (List String)) (w w' : W)
      → require_tags s found w ≡ (ok groups, w')
      → (any has_tags found ≡ true) × (found ≡ groups) × (w ≡ w')
  require_tags_ok found groups w w' h = elim (Bool-cases (any has_tags found)) [
    | inl there ↦
        let last : (ok found, w) ≡ (ok groups, w') = rw there at h in
        (there, ok_injective found groups (ap (λ r. r.0) last), ap (λ r. r.1) last)
    | inr missing ↦
        let last : (err (sentinel extraction_failed), w) ≡ (ok groups, w') = rw missing at h in cc
  ]

  -- An analysis succeeds only with the extractor's answer for the segments of the input and the
  -- allowed tags, and that answer has a tag in some group.
  pub analyze_request_ok :
      (split : Text → List Text) (user_input : Text) (groups : List (List String)) (w w' : W)
      → analyze_request s split user_input w ≡ (ok groups, w')
      → (allowed : List String) × (w₁ : W) × (get_allowed_tags s w ≡ (ok allowed, w₁))
        × (s.extractor.extract_multi_tags (split user_input) allowed w₁ ≡ (ok groups, w'))
        × (any has_tags groups ≡ true)
  unfolding analyze_request
  analyze_request_ok split user_input groups w w' h =
      let (allowed, w₁, known, h₁) = >>=-eq-ok (get_allowed_tags s) _ w groups w' h in
      let (found, w₂, extracted, last) =
        >>=-eq-ok (s.extractor.extract_multi_tags (split user_input) allowed) _ w₁ groups w' h₁ in
      let (some_tag, same, here) = require_tags_ok found groups w₂ w' last in
      (allowed, w₁, known, cc, subst (λ g. any has_tags g ≡ true) same some_tag)

  -- An extraction that finds no tag in any group is reported as such.
  pub analyze_request_none :
      (split : Text → List Text) (user_input : Text) (allowed : List String)
      (groups : List (List String)) (w w₁ w₂ : W)
      → get_allowed_tags s w ≡ (ok allowed, w₁)
      → s.extractor.extract_multi_tags (split user_input) allowed w₁ ≡ (ok groups, w₂)
      → All (λ tags. tags ≡ []) groups
      → analyze_request s split user_input w ≡ (err (sentinel extraction_failed), w₂)
  unfolding analyze_request
  analyze_request_none split user_input allowed groups w w₁ w₂ known extracted empty =
      rw (known, extracted) (rw (no_tags groups empty))
