-- ===== src/Repository/Queries/Deleted.antt =====
-- What becomes of the tags of deleted places.
use text.Mathlib.TextEquality.{eq_iff}
use mathlib.Core.List.{Mem, mem-cons_self, mem-cons_of_mem, eq-nil_iff_forall_not-mem}
use mathlib.Core.List.Perm
use route_planner.Prelude.{
  ◌≡◌, ◌↔◌, sym, ◌∙◌, subst, inl, inr, String, Bool, true, false, List, [], ◌∷◌, any, and_both,
  Bool-cases, true-false, arith,
}
use route_planner.Prelude.Text.{str_eq}
use route_planner.Effects.{ok}
use route_planner.Models.{Location, Float64, Place}
use route_planner.Repository.Gorm.{Table}
use route_planner.Repository.Places.{PlaceQueries, get_all_tags, find_optimal_places}
use route_planner.Repository.Queries.{is_among, is_live, has_tag, IsQueries}
use route_planner.Repository.Queries.Refinement.{selected_iff, place_repository-IsFinder}

among_mem : (tag : String) (ts : List String) → any (is_among (tag ∷ [])) ts ≡ true → Mem tag ts
among_mem tag [] h = cc
among_mem tag (t ∷ ts) h = elim (Bool-cases (str_eq t tag)) [
  | inl same ↦ subst (λ r. Mem r (t ∷ ts)) ((eq_iff t tag).0 same) mem-cons_self
  | inr apart ↦ mem-cons_of_mem t (among_mem tag ts (rw apart at h))
]

module _ {W : Type 0} (db : Table W Place) (queries : PlaceQueries W) {rows : W → List Place}
    {dwithin : Location → Location → Float64 → Bool} (lawful : IsQueries queries rows dwithin) where
  all_tags_query :
      (tags : List String) (w w' : W)
      → get_all_tags db queries w ≡ (ok tags, w')
      → queries.distinct_tags w ≡ (ok tags, w')
  unfolding get_all_tags
  all_tags_query tags w w' h = ground arith

  -- The tags that the repository gives are those of all rows, of the deleted places too.
  pub get_all_tags_iff :
      (tags : List String) (w w' : W) (tag : String)
      → get_all_tags db queries w ≡ (ok tags, w')
      → Mem tag tags ↔ ∥ ((p : Place) × Mem p (rows w) × Mem tag p.tags) ∥₁
  get_all_tags_iff tags w w' tag h = lawful.distinct_iff tags w w' tag (all_tags_query tags w w' h)

  -- A tag of deleted places only is among the tags that the repository gives for the user to choose
  -- from, and the search for it finds no place, from wherever and within whatever radius.
  pub deleted_tag :
      (tag : String) (p : Place) (tags : List String) (from : Location) (radius : Float64)
      (places : List Place) (w w₁ w₂ : W)
      → Mem p (rows w)
      → Mem tag p.tags
      → ((q : Place) → Mem q (rows w) → Mem tag q.tags → is_live q ≡ false)
      → get_all_tags db queries w ≡ (ok tags, w₁)
      → find_optimal_places db queries (tag ∷ []) from radius w ≡ (ok places, w₂)
      → Mem tag tags × (places ≡ [])
  deleted_tag tag p tags from radius places w w₁ w₂ there has all_deleted given found =
      let finder = place_repository-IsFinder db queries lawful in
      let best = finder.best_first (tag ∷ []) from radius places w w₂ found in
      (
        (get_all_tags_iff tags w w₁ tag given).1 ∣ (p, there, has) ∣₁,
        eq-nil_iff_forall_not-mem.1 (λ q m.
            (let (in_rows, near) = (selected_iff _ (rows w) q).0 ((Perm.mem_iff best.same).0 m) in
              let (tagged, within) = and_both (has_tag (tag ∷ []) q) _ near in
              let (some_tag, live) = and_both _ (is_live q) tagged in
              true-false (sym live ∙ all_deleted q in_rows (among_mem tag q.tags some_tag)))),
      )
