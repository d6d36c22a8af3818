-- ===== src/Travel/Route/Choice.antt =====
-- The first loop of `BuildRouteFromTags`: the choice of the places.
use mathlib.Core.Option.{some-injective}
use text.Mathlib.TextEquality.{eq_iff}
use route_planner.Prelude.{
  ◌+◌, ◌≤◌, String, ◌≡◌, refl, ap, subst, ◌≢◌, inl, inr, true, false, some, List, [], ◌∷◌, ◌++◌,
  arith, All, All-snoc, length, length-append, Bool-cases, Option-cases,
}
use route_planner.Errors.{sentinel, no_places_found}
use route_planner.Effects.{ok, err, ok_injective}
use route_planner.Effects.Laws.{>>=-eq-ok}
use route_planner.Models.{Location, Float64, Place}
use route_planner.Travel.{RouteService}
use route_planner.Travel.Route.{is_used, first_unused, choose_place, visit, choose_places}

-- No two places have one ID.
abbrev pub HasDistinctIds : List Place → Type 0
HasDistinctIds [] = Unit
HasDistinctIds (p ∷ ps) = All (λ q. p.id ≢ q.id) ps × HasDistinctIds ps

HasDistinctIds-snoc :
    (used : List Place) (p : Place)
    → HasDistinctIds used
    → All (λ u. u.id ≢ p.id) used
    → HasDistinctIds (used ++ p ∷ [])
HasDistinctIds-snoc [] p h k = (tt, tt)
HasDistinctIds-snoc (u ∷ used) p h k =
    (All-snoc (λ q. u.id ≢ q.id) used p h.0 k.0, HasDistinctIds-snoc used p h.1 k.1)

is_used-false :
    (used : List Place) (p : Place) → is_used used p ≡ false → All (λ u. u.id ≢ p.id) used
is_used-false [] p h = tt
is_used-false (u ∷ used) p h =
    (ground (arith, eq_iff u.id p.id), is_used-false used p (ground arith))

-- The search takes the first place of the answer whose ID no used place has; with the places of an
-- answer ordered by their score, that is the best one left.
pub first_unused_lem :
    (used places : List Place) (p : Place)
    → first_unused used places ≡ some p
    → (before : List Place) × (after : List Place) × (places ≡ before ++ p ∷ after)
      × All (λ q. is_used used q ≡ true) before
      × (is_used used p ≡ false)
unfolding first_unused
first_unused_lem used [] p h = cc
first_unused_lem used (q ∷ places) p h = elim (Bool-cases (is_used used q)) [
  | inl old ↦
      let (before, after, split, all_old, fresh) =
        first_unused_lem used places p (rw (old, first_unused) at h) in
      (q ∷ before, after, ap (λ r. q ∷ r) split, (old, all_old), fresh)
  | inr new ↦
      let e : q ≡ p = some-injective q p (rw (new, first_unused) at h) in
      ([], places, ap (λ r. r ∷ places) e, tt, rw (← e) new)
]

-- The choice adds at most one place, one that is not used.
data Chose (used : List Place) (chosen : Place) (used' : List Place) : Type 0 where
  fresh : is_used used chosen ≡ false → used' ≡ used ++ chosen ∷ [] → Chose used chosen used'
  repeated : used' ≡ used → Chose used chosen used'

choose_place_lem :
    (used : List Place) (p : Place) (ps : List Place)
    → Chose used (choose_place used p ps).0 (choose_place used p ps).1
unfolding choose_place
choose_place_lem used p ps = elim (Option-cases (first_unused used (p ∷ ps))) [
  | inl missing ↦ rw (missing, choose_place) (repeated refl)
  | inr (q, found) ↦
      let (before, after, split, all_old, new) = first_unused_lem used (p ∷ ps) q found in
      rw (found, choose_place) (fresh new refl)
]

Chose-HasDistinctIds :
    {used used' : List Place} {p : Place}
    → Chose used p used'
    → HasDistinctIds used
    → HasDistinctIds used'
Chose-HasDistinctIds {used} {p} (fresh new e) h =
    rw e (HasDistinctIds-snoc used p h (is_used-false used p new))
Chose-HasDistinctIds (repeated e) h = rw e h

Chose-length :
    {used used' : List Place} {p : Place} → Chose used p used' → length used' ≤ length used + 1
Chose-length {used} {p} (fresh new e) = rw e (omega (arith, length-append used (p ∷ [])))
Chose-length (repeated e) = rw e (omega arith)

All-middle :
    (R : Place → Type 0) (before : List Place) (p : Place) (after : List Place)
    → All R (before ++ p ∷ after)
    → R p
All-middle R [] p after h = h.0
All-middle R (q ∷ before) p after h = All-middle R before p after h.1

choose_place-All :
    (R : Place → Type 0) (used : List Place) (p : Place) (ps : List Place)
    → All R used
    → All R (p ∷ ps)
    → All R (choose_place used p ps).1
unfolding choose_place
choose_place-All R used p ps old new = elim (Option-cases (first_unused used (p ∷ ps))) [
  | inl missing ↦ rw (missing, choose_place) old
  | inr (q, found) ↦
      let (before, after, split, all_old, new_id) = first_unused_lem used (p ∷ ps) q found in
      rw (found, choose_place)
        (All-snoc R used q old (All-middle R before q after (subst (All R) split new)))
]

module _ {W : Type 0} (s : RouteService W) (radius : Float64) where
  -- The round of one group, and the rounds after it.
  pub choose_places_cons :
      (tags : List String) (groups : List (List String)) (prev_loc : Location)
      (used out : List Place) (w w' : W)
      → choose_places s radius (tags ∷ groups) prev_loc used w ≡ (ok out, w')
      → (p : Place) × (ps : List Place) × (w₁ : W) × (s.repo.find_optimal_places tags prev_loc
            radius w
          ≡ (ok (p ∷ ps), w₁))
        × (choose_places s radius groups
              (choose_place used p ps).0.location
              (choose_place used p ps).1
              w₁
            ≡ (ok out, w'))
  unfolding choose_places
  choose_places_cons tags groups prev_loc used out w w' h =
      let (places, w₁, asked, last) =
        >>=-eq-ok (s.repo.find_optimal_places tags prev_loc radius) _ w out w' h in
      split places asked last
    where
      split :
          (places : List Place) {w₁ : W}
          → s.repo.find_optimal_places tags prev_loc radius w ≡ (ok places, w₁)
          → visit (choose_places s radius groups) used places w₁ ≡ (ok out, w')
          → (p : Place) × (ps : List Place) × (w₁ : W) × (s.repo.find_optimal_places tags prev_loc
                radius w
              ≡ (ok (p ∷ ps), w₁))
            × (choose_places s radius groups
                  (choose_place used p ps).0.location
                  (choose_place used p ps).1
                  w₁
                ≡ (ok out, w'))
      split [] asked last = cc
      split (p ∷ ps) {w₁} asked last = (p, ps, w₁, asked, last)

  -- One rule for the whole loop: a relation between the used places before and after that every
  -- choice and its absence keep.
  choose_places_induction :
      (R : List Place → Type 0)
      → ((used used' : List Place) (p : Place) → Chose used p used' → R used → R used')
      → (groups : List (List String)) (prev_loc : Location) (used out : List Place) (w w' : W)
      → choose_places s radius groups prev_loc used w ≡ (ok out, w')
      → R used
      → R out
  unfolding choose_places
  choose_places_induction R keep [] prev_loc used out w w' h r =
      subst R (ok_injective used out (ap (λ t. t.0) h)) r
  choose_places_induction R keep (tags ∷ groups) prev_loc used out w w' h r =
      let (p, ps, w₁, asked, last) = choose_places_cons tags groups prev_loc used out w w' h in
      choose_places_induction R keep groups _ _ out w₁ w' last
        (keep used _ _ (choose_place_lem used p ps) r)

  -- The places of a route have pairwise distinct IDs.
  pub choose_places-HasDistinctIds :
      (groups : List (List String)) (start : Location) (out : List Place) (w w' : W)
      → choose_places s radius groups start [] w ≡ (ok out, w')
      → HasDistinctIds out
  choose_places-HasDistinctIds groups start out w w' h =
      choose_places_induction HasDistinctIds (λ used used' p c. Chose-HasDistinctIds c) groups start
        [] out w w' h tt

  -- A route has at most one place for each group of tags.
  pub length-choose_places :
      (groups : List (List String)) (prev_loc : Location) (used out : List Place) (w w' : W)
      → choose_places s radius groups prev_loc used w ≡ (ok out, w')
      → length out ≤ length used + length groups
  unfolding choose_places
  length-choose_places [] prev_loc used out w w' h =
      rw (ok_injective used out (ap (λ t. t.0) h)) (omega arith)
  length-choose_places (tags ∷ groups) prev_loc used out w w' h =
      let (p, ps, w₁, asked, last) = choose_places_cons tags groups prev_loc used out w w' h in
      omega (
        arith,
        length-choose_places groups _ _ out w₁ w' last,
        Chose-length (choose_place_lem used p ps),
      )

  -- What holds of every place of every answer to the groups' queries holds of every stop.
  pub choose_places-All :
      (R : Place → Type 0) (groups : List (List String)) (prev_loc : Location)
      (used out : List Place) (w w' : W)
      → All
          (λ tags.
            (from : Location) (v v' : W) (answer : List Place)
            → s.repo.find_optimal_places tags from radius v ≡ (ok answer, v')
            → All R answer)
          groups
      → All R used
      → choose_places s radius groups prev_loc used w ≡ (ok out, w')
      → All R out
  unfolding choose_places
  choose_places-All R [] prev_loc used out w w' answers r h =
      subst (All R) (ok_injective used out (ap (λ t. t.0) h)) r
  choose_places-All R (tags ∷ groups) prev_loc used out w w' (here, later) r h =
      let (p, ps, w₁, asked, last) = choose_places_cons tags groups prev_loc used out w w' h in
      choose_places-All R groups _ _ out w₁ w' later
        (choose_place-All R used p ps r (here prev_loc w w₁ (p ∷ ps) asked)) last

  -- A group for which the search finds nothing ends the request, and no later query is made.
  pub choose_places_none :
      (tags : List String) (groups : List (List String)) (prev_loc : Location) (used : List Place)
      (w w' : W)
      → s.repo.find_optimal_places tags prev_loc radius w ≡ (ok [], w')
      → choose_places s radius (tags ∷ groups) prev_loc used w
        ≡ (err (sentinel no_places_found), w')
  unfolding choose_places
  choose_places_none tags groups prev_loc used w w' h = rw h
