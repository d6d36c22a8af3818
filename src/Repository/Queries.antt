-- ===== src/Repository/Queries.antt =====
-- The tag queries of internal/repository/postgresql_place_repository.go: which rows their SQL selects,
-- and in which order. `rows` are all rows of the table, the soft-deleted ones included.
pub mod Refinement
pub mod Memory
pub mod Search
pub mod Deleted
pub mod Tests
use mathlib.Core.List.{Mem, Perm, Pairwise, Nodup, filter, map}
use route_planner.Prelude.{
  ℕ, zero, suc, ◌≤◌, ◌≡◌, ◌↔◌, refl, String, Bool, true, false, ◌&&◌, Option, none, some, List, [],
  ◌∷◌, any, if◌then◌else◌,
}
use route_planner.Prelude.Text.{str_eq}
use route_planner.Effects.{ok}
use route_planner.Models.{Location, Float64, Place}
use route_planner.Repository.Places.{ScoredResult, PlaceQueries}

-- `t.tag = ANY($1)`
abbrev pub is_among : List String → String → Bool
is_among tags tag = any (str_eq tag) tags

abbrev count_if : (String → Bool) → List String → ℕ
count_if test [] = zero
count_if test (t ∷ ts) = let rest = count_if test ts in if test t then suc rest else rest

-- The subquery `SELECT count(*) … as match_count`.
abbrev pub match_count : List String → Place → ℕ
match_count tags p = count_if (is_among tags) p.tags

-- `p.deleted_at IS NULL`
abbrev pub is_live : Place → Bool
is_live p = elim p.deleted_at [ none ↦ true | some t ↦ false ]

-- The `WHERE` of `GetByTags`: a tag of the row is among those asked for, and the row is not deleted.
abbrev pub has_tag : List String → Place → Bool
has_tag tags p = any (is_among tags) p.tags && is_live p

-- The `WHERE` of `FindOptimalPlaces`, over PostGIS's `ST_DWithin`.
abbrev pub is_near :
    (Location → Location → Float64 → Bool) → List String → Location → Float64 → Place → Bool
is_near dwithin tags from radius p = has_tag tags p && dwithin p.location from radius

-- A row of the answer.
abbrev pub scored : List String → Place → ScoredResult
scored tags p = record { place = p; match_count = match_count tags p }

unfoldable pub is_true : (b : Bool) → Dec (b ≡ true)
is_true true = yes refl
is_true false = no (λ e. cc)

-- The rows that pass the test.
abbrev pub selected : (Place → Bool) → List Place → List Place
selected test rows = filter (λ p. is_true (test p)) rows

-- `ORDER BY match_count DESC` says nothing of rows with the same count.
pub record IsAnswer (tags : List String) (test : Place → Bool) (rows : List Place)
    (answer : List ScoredResult) : Type 0 where
  pub same : Perm answer (map (scored tags) (selected test rows))
  pub ordered : Pairwise (λ a b. b.match_count ≤ a.match_count) answer

-- What the database does with the three queries; the last one is `SELECT DISTINCT` over all rows.
pub record IsQueries {W : Type 0} (queries : PlaceQueries W) (rows : W → List Place)
    (dwithin : Location → Location → Float64 → Bool) : Type 0 where
  pub by_tags :
      (tags : List String) (answer : List ScoredResult) (w w' : W)
      → queries.by_tags tags w ≡ (ok answer, w')
      → IsAnswer tags (has_tag tags) (rows w) answer
  pub by_tags_within :
      (tags : List String) (from : Location) (radius : Float64) (answer : List ScoredResult)
      (w w' : W)
      → queries.by_tags_within tags from radius w ≡ (ok answer, w')
      → IsAnswer tags (is_near dwithin tags from radius) (rows w) answer
  pub within_reads :
      (tags : List String) (from : Location) (radius : Float64) (w : W)
      → rows (queries.by_tags_within tags from radius w).1 ≡ rows w
  pub distinct :
      (tags : List String) (w w' : W) → queries.distinct_tags w ≡ (ok tags, w') → Nodup tags
  pub distinct_iff :
      (tags : List String) (w w' : W) (tag : String)
      → queries.distinct_tags w ≡ (ok tags, w')
      → Mem tag tags ↔ ∥ ((p : Place) × Mem p (rows w) × Mem tag p.tags) ∥₁
