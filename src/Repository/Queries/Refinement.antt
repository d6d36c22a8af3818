-- ===== src/Repository/Queries/Refinement.antt =====
-- What the place repository promises the route service, and that it keeps it over the queries.
use mathlib.Core.List.{Mem, Perm, Pairwise, map, mem-filter, exists_of_mem-map}
use mathlib.Core.Logic.{∥∥₁_elim}
use native.Mathlib.Bridge.{le_prop}
use mathlib.Core.List.Pairwise
use mathlib.Core.List.Perm
use route_planner.Prelude.{◌≤◌, ◌≡◌, refl, sym, ap, subst, ◌↔◌, String, Bool, true, List, [], ◌∷◌}
use route_planner.Effects.{ok, ok_injective, pure}
use route_planner.Effects.Laws.{>>=-eq-ok}
use route_planner.Models.{Location, Float64, Place}
use route_planner.Repository.{PlaceRepository}
use route_planner.Repository.Gorm.{Table}
use route_planner.Repository.Places.{
  ScoredResult, PlaceQueries, find_optimal_places, place_repository,
}
use route_planner.Repository.Queries.{
  match_count, is_near, scored, is_true, selected, IsAnswer, IsQueries,
}

-- The places of an answer: those of the rows that pass the test, each as often as it is there, and
-- those with more of the tags before those with fewer.
pub record IsBestFirst (tags : List String) (test : Place → Bool) (rows places : List Place)
    : Type 0 where
  pub same : Perm places (selected test rows)
  pub ordered : Pairwise (λ p q. match_count tags q ≤ match_count tags p) places

pub selected_iff :
    (test : Place → Bool) (rows : List Place) (p : Place)
    → Mem p (selected test rows) ↔ (Mem p rows × (test p ≡ true))
selected_iff test rows p = mem-filter (λ q. is_true (test q))

-- What the route service relies on.
pub record IsFinder {W : Type 0} (repo : PlaceRepository W) (rows : W → List Place)
    (dwithin : Location → Location → Float64 → Bool) : Type 0 where
  pub best_first :
      (tags : List String) (from : Location) (radius : Float64) (places : List Place) (w w' : W)
      → repo.find_optimal_places tags from radius w ≡ (ok places, w')
      → IsBestFirst tags (is_near dwithin tags from radius) (rows w) places
  pub reads :
      (tags : List String) (from : Location) (radius : Float64) (places : List Place) (w w' : W)
      → repo.find_optimal_places tags from radius w ≡ (ok places, w')
      → rows w' ≡ rows w

abbrev places_of : List ScoredResult → List Place
places_of answer = map (λ item. item.place) answer

places_of-scored : (tags : List String) (ps : List Place) → places_of (map (scored tags) ps) ≡ ps
places_of-scored tags [] = refl
places_of-scored tags (p ∷ ps) = ap (λ r. p ∷ r) (places_of-scored tags ps)

-- The count of a row is that of its place.
count_of_row :
    (tags : List String) (test : Place → Bool) (rows : List Place) (answer : List ScoredResult)
    → IsAnswer tags test rows answer
    → (r : ScoredResult) → Mem r answer
    → r.match_count ≡ match_count tags r.place
count_of_row tags test rows answer h r there =
    ∥∥₁_elim (exists_of_mem-map ((Perm.mem_iff h.same).0 there)) (λ a b. hlevel)
      λ (p, m, e). (rw (sym e) refl)

places_of-IsBestFirst :
    (tags : List String) (test : Place → Bool) (rows : List Place) (answer : List ScoredResult)
    → IsAnswer tags test rows answer
    → IsBestFirst tags test rows (places_of answer)
places_of-IsBestFirst tags test rows answer h = record {
  same = rw places_of-scored at (Perm.map (λ item. item.place) h.same);
  ordered =
      Pairwise.map' (λ item. item.place) (λ p q. le_prop)
        (Pairwise.imp_of_mem
          (λ a b there there' le.
            subst (λ n. n ≤ match_count tags a.place)
              (count_of_row tags test rows answer h b there')
              (subst (λ n. b.match_count ≤ n) (count_of_row tags test rows answer h a there) le))
          h.ordered);
}

module _ {W : Type 0} (db : Table W Place) (queries : PlaceQueries W) {rows : W → List Place}
    {dwithin : Location → Location → Float64 → Bool} (lawful : IsQueries queries rows dwithin) where
  -- The rows behind the places that the search returns.
  found_rows :
      (tags : List String) (from : Location) (radius : Float64) (places : List Place) (w w' : W)
      → find_optimal_places db queries tags from radius w ≡ (ok places, w')
      → (answer : List ScoredResult) × (queries.by_tags_within tags from radius w ≡ (ok answer, w'))
        × (places_of answer ≡ places)
  unfolding find_optimal_places
  found_rows tags from radius places w w' h =
      let (answer, w₁, asked, last) =
        >>=-eq-ok (queries.by_tags_within tags from radius) (λ res. pure (places_of res)) w places
          w' h in
      let world : w₁ ≡ w' = ap (λ r. r.1) last in
      (answer, rw world at asked, ok_injective _ _ (ap (λ r. r.0) last))

  -- Over queries that answer as their SQL says, the repository finds the places that the route service
  -- relies on: the rows of the table that are not deleted, are within the radius and have a tag that is
  -- asked for, those with more of the tags first; and it changes no row.
  pub place_repository-IsFinder : IsFinder (place_repository db queries) rows dwithin
  place_repository-IsFinder = record {
    best_first = λ tags from radius places w w' h.
        let (answer, asked, same) = found_rows tags from radius places w w' h in
        subst (IsBestFirst tags (is_near dwithin tags from radius) (rows w)) same (
          places_of-IsBestFirst tags _ (rows w) answer
            (lawful.by_tags_within tags from radius answer w w' asked));
    reads = λ tags from radius places w w' h.
        let (answer, asked, same) = found_rows tags from radius places w w' h in
        (rw asked at (lawful.within_reads tags from radius w));
  }
