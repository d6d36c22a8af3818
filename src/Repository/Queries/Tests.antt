-- ===== src/Repository/Queries/Tests.antt =====
-- The queries over a live place with coffee and tea, and a deleted one with wine.
use mathlib.Core.List.{
  Mem, Pairwise, mem-cons_self, mem-cons_of_mem, forall_mem-cons, not-mem-nil,
  eq-or-mem_of_mem-cons,
}
use mathlib.Core.Logic.Or
use mathlib.Core.HLevel.{⊥_prop}
use mathlib.Mathlib.Data.List.Defs.{dedup}
use route_planner.Prelude.{
  ℕ, ◌≤◌, ◌↔◌, ◌≡◌, refl, String, Bool, false, none, some, List, [], ◌∷◌, leb, ◌-◌,
}
use route_planner.Effects.{ok, pure, throw}
use route_planner.Errors.{other}
use route_planner.Models.{Location, Float64, Place}
use route_planner.Repository.Gorm.{Table}
use route_planner.Repository.Places.{get_all_tags, find_optimal_places}
use route_planner.Repository.Queries.{is_live, is_true}
use route_planner.Repository.Queries.Memory.{
  String-dec, tags_of, memory_queries, memory_queries-IsQueries,
}
use route_planner.Repository.Queries.Deleted.{deleted_tag}
use route_planner.Repository.Queries.Search.{Shares, IsWanted, find_optimal_places_iff}

abbrev pub cafe : Place
cafe = record {
  id = "1";
  name = "cafe";
  tags = "coffee" ∷ "tea" ∷ [];
  description = "d";
  location = record { latitude = 3; longitude = 4 };
  address = "a";
  rating = 0;
  created_by = "u";
  created_at = 0;
  updated_at = 0;
  deleted_at = none;
}

abbrev pub kiosk : Place
kiosk = record cafe { id = "2"; name = "kiosk"; tags = "coffee" ∷ [] }

abbrev bar : Place
bar = record cafe { id = "3"; name = "bar"; tags = "wine" ∷ []; deleted_at = some 7 }

abbrev pub rows : List Place
rows = kiosk ∷ cafe ∷ bar ∷ []

-- Places at most so far north.
abbrev pub within : Location → Location → Float64 → Bool
within at from radius = leb (at.latitude - from.latitude) radius

abbrev pub table : Table (List Place) Place
table = record {
  first = λ column value. throw (other "first");
  create = λ p rs. (ok p, p ∷ rs);
  updates = λ id entries. pure 0;
  delete = λ id. pure 0;
}

abbrev pub origin : Location
origin = record { latitude = 1; longitude = 2 }

best_first :
    find_optimal_places table (memory_queries within) ("tea" ∷ "coffee" ∷ []) origin 5 rows
    ≡ (ok (cafe ∷ kiosk ∷ []), rows)
unfolding find_optimal_places is_true
best_first = refl

find_optimal_places_iff_example :
    ((p : Place)
      → Mem p (cafe ∷ kiosk ∷ [])
        ↔ (Mem p rows × IsWanted within ("tea" ∷ "coffee" ∷ []) origin 5 p))
    × Pairwise
        (λ p q.
          (m : ℕ) × (n : ℕ) × Shares ("tea" ∷ "coffee" ∷ []) p.tags m
          × Shares ("tea" ∷ "coffee" ∷ []) q.tags n
          × (n ≤ m))
        (cafe ∷ kiosk ∷ [])
    × (rows ≡ rows)
find_optimal_places_iff_example =
    find_optimal_places_iff table (memory_queries within) (memory_queries-IsQueries within)
      ("tea" ∷ "coffee" ∷ []) origin 5 (cafe ∷ kiosk ∷ []) rows rows best_first

abbrev kiosk_and_bar : List Place
kiosk_and_bar = kiosk ∷ bar ∷ []

abbrev offered : List String
offered = dedup String-dec (tags_of kiosk_and_bar)

given : get_all_tags table (memory_queries within) kiosk_and_bar ≡ (ok offered, kiosk_and_bar)
unfolding get_all_tags
given = refl

no_wine :
    find_optimal_places table (memory_queries within) ("wine" ∷ []) origin 5 kiosk_and_bar
    ≡ (ok [], kiosk_and_bar)
unfolding find_optimal_places is_true
no_wine = refl

no_coffee : ¬ Mem {A = String} "wine" ("coffee" ∷ [])
no_coffee m = Or.elim ⊥_prop (eq-or-mem_of_mem-cons m) (λ e. cc) not-mem-nil

wine_deleted :
    (q : Place) → Mem q kiosk_and_bar → Mem {A = String} "wine" q.tags → is_live q ≡ false
wine_deleted = (forall_mem-cons (λ q. hlevel)).1 (
  λ m. absurd (no_coffee m),
  (forall_mem-cons (λ q. hlevel)).1 (λ m. refl, λ q m. absurd (not-mem-nil m)),
)

abbrev no_places : List Place
no_places = []

deleted_tag_example : Mem {A = String} "wine" offered × (no_places ≡ [])
deleted_tag_example =
    deleted_tag table (memory_queries within) (memory_queries-IsQueries within) "wine" bar offered
      origin 5 no_places kiosk_and_bar kiosk_and_bar kiosk_and_bar
      (mem-cons_of_mem kiosk mem-cons_self) mem-cons_self wine_deleted given no_wine
