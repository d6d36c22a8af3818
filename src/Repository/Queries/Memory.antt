-- ===== src/Repository/Queries/Memory.antt =====
-- The queries over a list of rows that is held in memory, for the tests.
use mathlib.Core.Logic.Or
use mathlib.Core.Logic.{∥∥₁_prop, ∥∥₁_map, ∥∥₁_elim}
use mathlib.Core.List.{
  Mem, Mem-prop, Nodup, not-mem-nil, Perm, Pairwise, Pairwise-singleton, map, mem-append,
  mem-append_left, mem-append_right, forall_mem-cons, mem-cons_self, mem-cons_of_mem,
  eq-or-mem_of_mem-cons,
}
use mathlib.Core.List.Perm
use mathlib.Mathlib.Data.List.Defs.{dedup}
use mathlib.Mathlib.Data.List.Dedup.{mem-dedup, Nodup-dedup_self}
use native.Mathlib.Bridge.{le_prop}
use text.Mathlib.TextEquality.{eq_iff}
use route_planner.Prelude.{
  ◌≤◌, ◌≡◌, ◌∙◌, ◌↔◌, refl, sym, ap, subst, inl, inr, String, Bool, List, [], ◌∷◌, ◌++◌, leb,
  if◌then◌else◌, Bool-cases, true-false, arith,
}
use route_planner.Prelude.Text.{str_eq}
use route_planner.Effects.{ok, ok_injective}
use route_planner.Models.{Location, Float64, Place}
use route_planner.Repository.Places.{ScoredResult, PlaceQueries}
use route_planner.Repository.Queries.{has_tag, is_near, scored, selected, IsAnswer, IsQueries}

abbrev pub insert_row : ScoredResult → List ScoredResult → List ScoredResult
insert_row r [] = r ∷ []
insert_row r (s ∷ l) =
    let rest = insert_row r l in if leb s.match_count r.match_count then r ∷ s ∷ l else s ∷ rest

abbrev pub sort_rows : List ScoredResult → List ScoredResult
sort_rows [] = []
sort_rows (r ∷ l) = insert_row r (sort_rows l)

insert_row-perm : (r : ScoredResult) (l : List ScoredResult) → Perm (insert_row r l) (r ∷ l)
insert_row-perm r [] = Perm.rfl
insert_row-perm r (s ∷ l) = elim (Bool-cases (leb s.match_count r.match_count)) [
  | inl above ↦ rw above Perm.rfl
  | inr below ↦ rw below (Perm.trans (Perm.cons s (insert_row-perm r l)) (Perm.swap r s l))
]

sort_rows-perm : (l : List ScoredResult) → Perm (sort_rows l) l
sort_rows-perm [] = Perm.rfl
sort_rows-perm (r ∷ l) =
    Perm.trans (insert_row-perm r (sort_rows l)) (Perm.cons r (sort_rows-perm l))

abbrev IsDescending : List ScoredResult → Type 0
IsDescending = Pairwise (λ a b. b.match_count ≤ a.match_count)

insert_row-IsDescending :
    (r : ScoredResult) (l : List ScoredResult) → IsDescending l → IsDescending (insert_row r l)
insert_row-IsDescending r [] h = Pairwise-singleton _ r
insert_row-IsDescending r (s ∷ l) (Pairwise.cons below h) =
    elim (Bool-cases (leb s.match_count r.match_count)) [
      | inl above ↦ rw above (
          Pairwise.cons
            ((forall_mem-cons (λ x. le_prop)).1
              (ground arith, λ x m. (let le = below x m in ground arith)))
            (Pairwise.cons below h))
      | inr under ↦ rw under (
          Pairwise.cons
            (λ x m.
              (forall_mem-cons (λ y. le_prop)).1 (ground arith, below) x
                ((Perm.mem_iff (insert_row-perm r l)).0 m))
            (insert_row-IsDescending r l h))
    ]

sort_rows-IsDescending : (l : List ScoredResult) → IsDescending (sort_rows l)
sort_rows-IsDescending [] = Pairwise.nil
sort_rows-IsDescending (r ∷ l) = insert_row-IsDescending r (sort_rows l) (sort_rows-IsDescending l)

pub String-dec : (s t : String) → Dec (s ≡ t)
String-dec s t = elim (Bool-cases (str_eq s t)) [
  | inl same ↦ yes ((eq_iff s t).0 same)
  | inr apart ↦ no (λ e. true-false (sym ((eq_iff s t).1 e) ∙ apart))
]

abbrev pub tags_of : List Place → List String
tags_of [] = []
tags_of (p ∷ ps) = p.tags ++ tags_of ps

tags_of_iff :
    (ps : List Place) (tag : String)
    → Mem tag (tags_of ps) ↔ ∥ ((p : Place) × Mem p ps × Mem tag p.tags) ∥₁
tags_of_iff [] tag =
    (λ m. absurd (not-mem-nil m), λ t. ∥∥₁_elim t Mem-prop (λ (p, m, h). absurd (not-mem-nil m)))
tags_of_iff (p ∷ ps) tag = (
  λ m.
      Or.elim ∥∥₁_prop (mem-append.0 m) (λ here. ∣ (p, mem-cons_self, here) ∣₁)
        (λ later.
          ∥∥₁_map ((tags_of_iff ps tag).0 later)
            (λ (q, there, has). (q, mem-cons_of_mem p there, has))),
  λ t. ∥∥₁_elim t Mem-prop (λ (q, there, has).
      Or.elim Mem-prop (eq-or-mem_of_mem-cons there)
        (λ same. mem-append_left (tags_of ps) (subst (λ r. Mem tag r.tags) same has))
        (λ later. mem-append_right p.tags ((tags_of_iff ps tag).1 ∣ (q, later, has) ∣₁))),
)

module _ (dwithin : Location → Location → Float64 → Bool) where
  abbrev pub answer : List String → (Place → Bool) → List Place → List ScoredResult
  answer tags test rows = sort_rows (map (scored tags) (selected test rows))

  abbrev pub memory_queries : PlaceQueries (List Place)
  memory_queries = record {
    by_tags = λ tags rows. (ok (answer tags (has_tag tags) rows), rows);
    by_tags_within =
        λ tags from radius rows. (ok (answer tags (is_near dwithin tags from radius) rows), rows);
    distinct_tags = λ rows. (ok (dedup String-dec (tags_of rows)), rows);
  }

  answer-IsAnswer :
      (tags : List String) (test : Place → Bool) (rows : List Place)
      → IsAnswer tags test rows (answer tags test rows)
  answer-IsAnswer tags test rows = record {
    same = sort_rows-perm (map (scored tags) (selected test rows));
    ordered = sort_rows-IsDescending (map (scored tags) (selected test rows));
  }

  pub memory_queries-IsQueries : IsQueries memory_queries (λ rows. rows) dwithin
  memory_queries-IsQueries = record {
    by_tags = λ tags rs w w' h.
        subst (IsAnswer tags (has_tag tags) w) (ok_injective _ rs (ap (λ r. r.0) h))
          (answer-IsAnswer tags (has_tag tags) w);
    by_tags_within = λ tags from radius rs w w' h.
        subst (IsAnswer tags (is_near dwithin tags from radius) w)
          (ok_injective _ rs (ap (λ r. r.0) h))
          (answer-IsAnswer tags (is_near dwithin tags from radius) w);
    within_reads = λ tags from radius w. refl;
    distinct = λ tags w w' h.
        subst Nodup (ok_injective _ tags (ap (λ r. r.0) h))
          (Nodup-dedup_self String-dec (tags_of w));
    distinct_iff = λ tags w w' tag h.
        subst (λ ts. Mem tag ts ↔ ∥ ((p : Place) × Mem p w × Mem tag p.tags) ∥₁)
          (ok_injective _ tags (ap (λ r. r.0) h))
          (
            λ m. (tags_of_iff w tag).0 ((mem-dedup String-dec).0 m),
            λ t. (mem-dedup String-dec).1 ((tags_of_iff w tag).1 t),
          );
  }
