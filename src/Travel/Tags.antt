-- ===== src/Travel/Tags.antt =====
-- `GetAllowedTags`, `GetByTags` and `AnalyzeRequest` of internal/travelroutes/service.go.
pub mod Analysis
pub mod Laws
pub mod Tests
use route_planner.Prelude.{String, Bool, true, false, List, [], ◌∷◌, any, if◌then◌else◌}
use route_planner.Prelude.Text.{Text}
use route_planner.Prelude.Int.{scale64}
use route_planner.Errors.{sentinel, extraction_failed}
use route_planner.Effects.{Eff, pure, throw, handle, modify, ◌>>=◌, ◌>>◌}
use route_planner.Models.{Place}
use route_planner.Travel.{RouteService}

-- `time.Minute`
abbrev minute : Prim.Native.Nat.ℕ
minute = 60_000_000_000

-- `len(tags) > 0`
abbrev pub has_tags : List String → Bool
has_tags [] = false
has_tags (_ ∷ _) = true

module _ {W : Type 0} (s : RouteService W) where
  -- A failed write to the cache is only logged.
  abbrev store_tags : List String → Eff W (List String)
  store_tags tags =
      handle (s.cache.set "allowed_tags" tags (scale64 s.tags_ttl minute)) (λ _. pure tags)
        (λ _. pure tags)

  pub get_allowed_tags : Eff W (List String)
  get_allowed_tags =
      handle (s.cache.get "allowed_tags") (λ tags. modify s.counters.hit >> pure tags)
        λ _. modify s.counters.miss >> (s.repo.get_all_tags >>= store_tags)

  pub get_by_tags : Text → Eff W (List Place)
  get_by_tags user_input = do
    allowed_tags ← get_allowed_tags
    tags ← s.extractor.extract_tags user_input allowed_tags
    s.repo.get_by_tags tags

  -- The loop over `allTags`, and the error if no group has a tag.
  abbrev require_tags : List (List String) → Eff W (List (List String))
  require_tags all_tags =
      if any has_tags all_tags then pure all_tags else throw (sentinel extraction_failed)

  -- `split` is `splitSegments`.
  pub analyze_request : (Text → List Text) → Text → Eff W (List (List String))
  analyze_request split user_input = do
    allowed_tags ← get_allowed_tags
    all_tags ← s.extractor.extract_multi_tags (split user_input) allowed_tags
    require_tags all_tags
