-- ===== src/Repository/Queries/Search.antt =====
-- The answers of `FindOptimalPlaces` in words of the rows: what its SQL selects and how it orders them.
use text.Mathlib.TextEquality.{eq_iff}
use mathlib.Core.List.{
  Mem, Pairwise, mem-cons_self, mem-cons_of_mem, not-mem-nil, eq-or-mem_of_mem-cons,
}
use mathlib.Core.Logic.{∥∥₁_elim}
use mathlib.Core.Logic.Or
use mathlib.Core.HLevel.{⊥_prop}
use mathlib.Core.List.Perm
use mathlib.Core.List.Pairwise
use route_planner.Prelude.{
  ℕ, zero, suc, ◌≤◌, ◌≡◌, ◌↔◌, refl, sym, subst, ◌∙◌, inl, inr, String, Bool, true, false, Option,
  none, some, List, [], ◌∷◌, any, and_both, Bool-cases,
}
use route_planner.Prelude.Text.{str_eq}
use route_planner.Effects.{ok}
use route_planner.Models.{Time, Location, Float64, Place}
use route_planner.Repository.Gorm.{Table}
use route_planner.Repository.Places.{PlaceQueries, find_optimal_places}
use route_planner.Repository.Queries.{is_among, count_if, is_live, has_tag, is_near, IsQueries}
use route_planner.Repository.Queries.Refinement.{selected_iff, place_repository-IsFinder}

-- So many of the tags in the second list are in the first.
pub data Shares (tags : List String) : List String → ℕ → Type 0 where
  no_tags : Shares tags [] zero
  shared :
      {t : String} {ts : List String} {n : ℕ}
      → Mem t tags
      → Shares tags ts n
      → Shares tags (t ∷ ts) (suc n)
  foreign :
      {t : String} {ts : List String} {n : ℕ}
      → ¬ (Mem t tags)
      → Shares tags ts n
      → Shares tags (t ∷ ts) n

is_among-Mem : (tags : List String) (t : String) → is_among tags t ≡ true → Mem t tags
is_among-Mem [] t h = cc
is_among-Mem (u ∷ tags) t h = elim (Bool-cases (str_eq t u)) [
  | inl same ↦ subst (λ r. Mem t (r ∷ tags)) ((eq_iff t u).0 same) mem-cons_self
  | inr apart ↦ mem-cons_of_mem u (is_among-Mem tags t (rw apart at h))
]

is_among-not_Mem : (tags : List String) (t : String) → is_among tags t ≡ false → ¬ (Mem t tags)
is_among-not_Mem [] t h m = not-mem-nil m
is_among-not_Mem (u ∷ tags) t h m = elim (Bool-cases (str_eq t u)) [
  | inl same ↦ (let bad : true ≡ false = rw same at h in cc)
  | inr apart ↦
      Or.elim ⊥_prop (eq-or-mem_of_mem-cons m)
        (λ e. (let bad : true ≡ false = sym ((eq_iff t u).1 e) ∙ apart in cc))
        (λ m'. is_among-not_Mem tags t (rw apart at h) m')
]

count-Shares : (tags ts : List String) → Shares tags ts (count_if (is_among tags) ts)
count-Shares tags [] = no_tags
count-Shares tags (t ∷ ts) = elim (Bool-cases (is_among tags t)) [
  | inl there ↦ rw there (shared (is_among-Mem tags t there) (count-Shares tags ts))
  | inr missing ↦ rw missing (foreign (is_among-not_Mem tags t missing) (count-Shares tags ts))
]

any-Mem :
    (tags ts : List String)
    → any (is_among tags) ts ≡ true
    → ∥ ((t : String) × Mem t tags × Mem t ts) ∥₁
any-Mem tags [] h = cc
any-Mem tags (t ∷ ts) h = elim (Bool-cases (is_among tags t)) [
  | inl there ↦ ∣ (t, is_among-Mem tags t there, mem-cons_self) ∣₁
  | inr missing ↦
      ∥∥₁_elim (any-Mem tags ts (rw missing at h)) (λ a b. hlevel)
        (λ (u, asked, there). ∣ (u, asked, mem-cons_of_mem t there) ∣₁)
]

Mem-any :
    (tags ts : List String) (t : String) → Mem t tags → Mem t ts → any (is_among tags) ts ≡ true
Mem-any tags [] t asked there = absurd (not-mem-nil there)
Mem-any tags (u ∷ ts) t asked there = elim (Bool-cases (is_among tags u)) [
  | inl here ↦ rw here refl
  | inr missing ↦ rw missing (
      Or.elim (λ a b. hlevel) (eq-or-mem_of_mem-cons there)
        (λ e. absurd (is_among-not_Mem tags u missing (subst (λ r. Mem r tags) e asked)))
        (λ m. Mem-any tags ts t asked m))
]

none_iff : (o : Option Time) → (elim o [ none ↦ true | some t ↦ false ] ≡ true) ↔ (o ≡ none)
none_iff none = (λ h. refl, λ h. refl)
none_iff (some t) = (λ h. cc, λ h. cc)

live_iff : (p : Place) → (is_live p ≡ true) ↔ (p.deleted_at ≡ none)
live_iff p = none_iff p.deleted_at

-- A row that the search is to find.
abbrev pub IsWanted :
    (Location → Location → Float64 → Bool) → List String → Location → Float64 → Place → Type 0
IsWanted dwithin tags from radius p =
    (p.deleted_at ≡ none)
    × ∥ ((t : String) × Mem t tags × Mem t p.tags) ∥₁
    × (dwithin p.location from radius ≡ true)

is_near_iff :
    (dwithin : Location → Location → Float64 → Bool) (tags : List String) (from : Location)
    (radius : Float64) (p : Place)
    → (is_near dwithin tags from radius p ≡ true) ↔ IsWanted dwithin tags from radius p
is_near_iff dwithin tags from radius p = (
  λ h.
      (let (tagged, within) = and_both (has_tag tags p) _ h in
        let (some_tag, live) = and_both _ (is_live p) tagged in
        ((live_iff p).0 live, any-Mem tags p.tags some_tag, within)),
  λ (live, some_tag, within).
      (let tagged : any (is_among tags) p.tags ≡ true =
          ∥∥₁_elim some_tag (λ a b. hlevel)
            (λ (t, asked, there). Mem-any tags p.tags t asked there) in
        rw (tagged, (live_iff p).1 live, within) refl),
)

module _ {W : Type 0} (db : Table W Place) (queries : PlaceQueries W) {rows : W → List Place}
    {dwithin : Location → Location → Float64 → Bool} (lawful : IsQueries queries rows dwithin) where
  -- Over queries that answer as their SQL says, a search that comes back without an error gives the rows
  -- that are not deleted, share a tag with those asked for and lie within the radius, and no others, in
  -- an order in which no place shares more of the tags than one before it; and it changes no row.
  pub find_optimal_places_iff :
      (tags : List String) (from : Location) (radius : Float64) (places : List Place) (w w' : W)
      → find_optimal_places db queries tags from radius w ≡ (ok places, w')
      → ((p : Place) → Mem p places ↔ (Mem p (rows w) × IsWanted dwithin tags from radius p))
        × Pairwise
            (λ p q. (m : ℕ) × (n : ℕ) × Shares tags p.tags m × Shares tags q.tags n × (n ≤ m))
            places
        × (rows w' ≡ rows w)
  find_optimal_places_iff tags from radius places w w' h =
      let finder = place_repository-IsFinder db queries lawful in
      let best = finder.best_first tags from radius places w w' h in
      (
        λ p. (
          λ there.
              (let (in_rows, near) =
                  (selected_iff _ (rows w) p).0 ((Perm.mem_iff best.same).0 there) in
                (in_rows, (is_near_iff dwithin tags from radius p).0 near)),
          λ (in_rows, wanted). (Perm.mem_iff best.same).1 (
              (selected_iff _ (rows w) p).1
                (in_rows, (is_near_iff dwithin tags from radius p).1 wanted)),
        ),
        Pairwise.imp (λ p q le. (_, _, count-Shares tags _, count-Shares tags _, le)) best.ordered,
        finder.reads tags from radius places w w' h,
      )
