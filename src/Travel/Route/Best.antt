-- ===== src/Travel/Route/Best.antt =====
-- The first loop of `BuildRouteFromTags` over a repository that finds the best places first.
use mathlib.Core.List.{
  Mem, not-mem-nil, Pairwise, mem-append, mem-append_right, mem-cons_self, forall_mem-cons,
  rel_of_Pairwise-cons,
}
use mathlib.Core.Logic.Or
use mathlib.Core.List.Pairwise
use mathlib.Core.List.Perm
use native.Mathlib.Bridge.{le_prop}
use route_planner.Prelude.{
  ◌≤◌, ◌≡◌, ◌≢◌, refl, sym, ap, ◌∙◌, subst, inl, inr, String, Bool, true, false, none, some, List,
  [], ◌∷◌, ◌++◌, All, arith, Option-cases, Bool-cases, true-false,
}
use route_planner.Effects.{ok, ok_injective}
use route_planner.Models.{Location, Float64, Place}
use route_planner.Travel.{RouteService}
use route_planner.Travel.Route.{is_used, first_unused, choose_place, choose_places}
use route_planner.Travel.Route.Choice.{first_unused_lem, choose_places_cons}
use route_planner.Repository.Queries.{match_count, is_near}
use route_planner.Repository.Queries.Refinement.{IsBestFirst, IsFinder, selected_iff}

-- The place is a candidate that no used place has the ID of, and none of those has more of the tags.
pub record IsBest (tags : List String) (test : Place → Bool) (rows used : List Place) (p : Place)
    : Type 0 where
  pub there : Mem p rows
  pub fits : test p ≡ true
  pub unused : is_used used p ≡ false
  pub best :
      (q : Place)
      → Mem q rows
      → test q ≡ true
      → is_used used q ≡ false
      → match_count tags q ≤ match_count tags p

-- Every candidate is used already, and the place is one with the most of the tags.
pub record IsRepeated (tags : List String) (test : Place → Bool) (rows used : List Place)
    (p : Place) : Type 0 where
  pub there : Mem p rows
  pub fits : test p ≡ true
  pub all_used : (q : Place) → Mem q rows → test q ≡ true → is_used used q ≡ true
  pub best : (q : Place) → Mem q rows → test q ≡ true → match_count tags q ≤ match_count tags p

module _ (tags : List String) (test : Place → Bool) (rows : List Place) where
  -- A candidate is in the answer, and an answer's place is a candidate.
  listed :
      (places : List Place)
      → IsBestFirst tags test rows places
      → (q : Place) → Mem q rows
      → test q ≡ true
      → Mem q places
  listed places h q there fits =
      (Perm.mem_iff h.same).1 ((selected_iff test rows q).1 (there, fits))

  candidate :
      (places : List Place)
      → IsBestFirst tags test rows places
      → (q : Place) → Mem q places
      → Mem q rows × (test q ≡ true)
  candidate places h q there = (selected_iff test rows q).0 ((Perm.mem_iff h.same).0 there)

  -- The head of the answer has the most of the tags.
  head_best :
      (p : Place) (ps : List Place)
      → Pairwise (λ a b. match_count tags b ≤ match_count tags a) (p ∷ ps)
      → (q : Place) → Mem q (p ∷ ps)
      → match_count tags q ≤ match_count tags p
  head_best p ps ordered =
      (forall_mem-cons (λ q. le_prop)).1 (omega arith, λ q m. rel_of_Pairwise-cons ordered m)

  -- So has the first of the places that are left, among them.
  rest_ordered :
      (before rest : List Place)
      → Pairwise (λ a b. match_count tags b ≤ match_count tags a) (before ++ rest)
      → Pairwise (λ a b. match_count tags b ≤ match_count tags a) rest
  rest_ordered [] rest ordered = ordered
  rest_ordered (b ∷ before) rest ordered = rest_ordered before rest (Pairwise.of_cons ordered)

  used_mem :
      (used l : List Place)
      → All (λ q. is_used used q ≡ true) l
      → (q : Place) → Mem q l
      → is_used used q ≡ true
  used_mem used [] h = λ q m. absurd (not-mem-nil m)
  used_mem used (p ∷ l) h = (forall_mem-cons (λ q. hlevel)).1 (h.0, used_mem used l h.1)

  fresh-IsBest :
      (used places : List Place) (p : Place)
      → IsBestFirst tags test rows places
      → first_unused used places ≡ some p
      → IsBest tags test rows used p
  fresh-IsBest used places p h found =
      let (before, after, split, all_used, new) = first_unused_lem used places p found in
      let in_answer : Mem p places =
        subst (Mem p) (sym split) (mem-append_right before mem-cons_self) in
      let (there, fits) = candidate places h p in_answer in
      record {
        there = there;
        fits = fits;
        unused = new;
        best = λ q there' fits' unused'.
            Or.elim le_prop (mem-append.0 (subst (Mem q) split (listed places h q there' fits')))
              (λ m.
                (let old : is_used used q ≡ true = used_mem used before all_used q m in
                  absurd (true-false (sym old ∙ unused'))))
              (λ m.
                head_best p after
                  (rest_ordered before (p ∷ after) (
                    subst (Pairwise (λ a b. match_count tags b ≤ match_count tags a)) split
                      h.ordered))
                  q m);
      }

  first_unused-none :
      (used l : List Place) → first_unused used l ≡ none → All (λ q. is_used used q ≡ true) l
  unfolding first_unused
  first_unused-none used [] h = tt
  first_unused-none used (p ∷ l) h = elim (Bool-cases (is_used used p)) [
    | inl old ↦ (old, first_unused-none used l (rw (old, first_unused) at h))
    | inr new ↦ absurd (some_none p (rw (new, first_unused) at h))
  ]
    where
      some_none : (p : Place) → some p ≢ none
      some_none p e = cc

  head-IsRepeated :
      (used : List Place) (p : Place) (ps : List Place)
      → IsBestFirst tags test rows (p ∷ ps)
      → first_unused used (p ∷ ps) ≡ none
      → IsRepeated tags test rows used p
  head-IsRepeated used p ps h missing =
      let (there, fits) = candidate (p ∷ ps) h p mem-cons_self in
      record {
        there = there;
        fits = fits;
        all_used = λ q there' fits'.
            used_mem used (p ∷ ps) (first_unused-none used (p ∷ ps) missing) q
              (listed (p ∷ ps) h q there' fits');
        best = λ q there' fits'. head_best p ps h.ordered q (listed (p ∷ ps) h q there' fits');
      }

  -- One round: the place that is chosen, and the used places after it.
  pub data Round (used : List Place) (p : Place) (used' : List Place) : Type 0 where
    fresh : IsBest tags test rows used p → used' ≡ used ++ p ∷ [] → Round used p used'
    repeated : IsRepeated tags test rows used p → used' ≡ used → Round used p used'

  choose_place-Round :
      (used : List Place) (p : Place) (ps : List Place)
      → IsBestFirst tags test rows (p ∷ ps)
      → Round used (choose_place used p ps).0 (choose_place used p ps).1
  unfolding choose_place
  choose_place-Round used p ps h = elim (Option-cases (first_unused used (p ∷ ps))) [
    | inl missing ↦ rw (missing, choose_place) (repeated (head-IsRepeated used p ps h missing) refl)
    | inr (q, found) ↦ rw (found, choose_place) (fresh (fresh-IsBest used (p ∷ ps) q h found) refl)
  ]

module _ (dwithin : Location → Location → Float64 → Bool) (rows : List Place)
    (radius : Float64) where
  -- The stops of a route: for each group of tags the best candidate around the stop before it, which
  -- becomes a stop of the route if there is one that is not used.
  abbrev pub AreStops : List (List String) → Location → List Place → List Place → Type 0
  AreStops [] from used stops = used ≡ stops
  AreStops (tags ∷ groups) from used stops =
      (p : Place) × (used' : List Place) × Round tags (is_near dwithin tags from radius) rows used p
        used'
      × AreStops groups p.location used' stops

module _ {W : Type 0} (s : RouteService W) {rows : W → List Place}
    {dwithin : Location → Location → Float64 → Bool} (finder : IsFinder s.repo rows dwithin)
    (radius : Float64) where
  pub choose_places-AreStops :
      (groups : List (List String)) (from : Location) (used stops : List Place) (w w' : W)
      → choose_places s radius groups from used w ≡ (ok stops, w')
      → AreStops dwithin (rows w) radius groups from used stops
  unfolding choose_places
  choose_places-AreStops [] from used stops w w' h = ok_injective used stops (ap (λ t. t.0) h)
  choose_places-AreStops (tags ∷ groups) from used stops w w' h =
      let (p, ps, w₁, asked, last) =
        choose_places_cons s radius tags groups from used stops w w' h in
      let (chosen, used') = choose_place used p ps in
      let later = choose_places-AreStops groups chosen.location used' stops w₁ w' last in
      (
        chosen,
        used',
        choose_place-Round tags _ (rows w) used p ps
            (finder.best_first tags from radius (p ∷ ps) w w₁ asked),
        subst (λ r. AreStops dwithin r radius groups chosen.location used' stops)
            (finder.reads tags from radius (p ∷ ps) w w₁ asked) later,
      )
