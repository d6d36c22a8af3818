-- ===== src/Repository/Gorm/Memory.antt =====
-- A table that is held in memory, for the tests: a partial function from IDs to rows, which looks up
-- every column as the ID and whose writes other than a delete change nothing.
use text.Mathlib.TextEquality.{eq_iff}
use route_planner.Prelude.{
  ℕ, ◌≡◌, refl, sym, ap, ◌≢◌, ◌↔◌, String, Option, none, some, false, inl, inr, Bool-cases,
  if◌then◌else◌, arith,
}
use route_planner.Prelude.Text.{str_eq}
use route_planner.Errors.{GoError, Sentinel, sentinel, same_sentinel, record_not_found, errors_is}
use route_planner.Effects.{Outcome, ok_injective, ok, err, panic, pure, Eff}
use route_planner.Repository.Gorm.{Table, IsTable, IsReporting}

abbrev pub Rows : Type 0 → Type 0
Rows Row = String → Option Row

module _ {Row : Type 0} where
  abbrev pub found : Option Row → Rows Row → Outcome Row × Rows Row
  found none w = (err (sentinel record_not_found), w)
  found (some r) w = (ok r, w)

  abbrev pub row_count : Option Row → ℕ
  row_count none = 0
  row_count (some r) = 1

  abbrev pub without : String → Rows Row → Rows Row
  without id w row_id = if str_eq row_id id then none else w row_id

  -- With an insert of one's own.
  abbrev pub table_with : (Row → Eff (Rows Row) Row) → Table (Rows Row) Row
  table_with insert = record {
    first = λ column value w. found (w value) w;
    create = insert;
    updates = λ id entries. pure 1;
    delete = λ id w. (ok (row_count (w id)), without id w);
  }

  abbrev pub memory_table : Table (Rows Row) Row
  memory_table = table_with (λ r. pure r)

  abbrev pub live_rows : Rows Row → String → Option Row
  live_rows w = w

  found_same : (o : Option Row) (w w' : Rows Row) (r : Row) → found o w ≡ (ok r, w') → o ≡ some r
  found_same none w w' r h = cc
  found_same (some q) w w' r h = cc

  found_none : (o : Option Row) (w w' : Rows Row) (e : GoError) → found o w ≡ (err e, w') → o ≡ none
  found_none none w w' e h = refl
  found_none (some q) w w' e h = cc

  found_reads : (o : Option Row) (w : Rows Row) (id : String) → (found o w).1 id ≡ w id
  found_reads none w id = refl
  found_reads (some q) w id = refl

  removed : (id : String) (w : Rows Row) → without id w id ≡ none
  removed id w = rw ((eq_iff id id).1 refl)

  kept : (id row_id : String) (w : Rows Row) → row_id ≢ id → without id w row_id ≡ w row_id
  kept id row_id w differ = elim (Bool-cases (str_eq row_id id)) [
    | inl same ↦ absurd (differ ((eq_iff row_id id).0 same))
    | inr apart ↦ rw apart
  ]

  counted : (o : Option Row) → (row_count o ≡ 0) ↔ (o ≡ none)
  counted none = ground arith
  counted (some r) = ground arith

  pub table_with-IsTable :
      (insert : Row → Eff (Rows Row) Row) → IsTable (table_with insert) live_rows
  table_with-IsTable insert = record {
    first_found = λ id w w' r h. found_same (w id) w w' r h;
    first_missing = λ id w w' e h missing. found_none (w id) w w' e h;
    first_reads = λ column value w id. found_reads (w value) w id;
    delete_done = λ id w w' n h. rw (sym (ap (λ r. r.1) h)) (removed id w);
    delete_counts = λ id w w' n h. rw (ok_injective _ _ (sym (ap (λ r. r.0) h))) (counted (w id));
    delete_others = λ id row_id w differ. kept id row_id w differ;
    delete_failed = λ id w w' e row_id h. cc;
  }

  pub memory_table-IsTable : IsTable memory_table live_rows
  memory_table-IsTable = table_with-IsTable (λ r. pure r)

  found_foreign :
      (absent : Sentinel) (o : Option Row) (w w' : Rows Row) (e : GoError)
      → same_sentinel record_not_found absent ≡ false
      → found o w ≡ (err e, w')
      → errors_is e absent ≡ false
  unfolding errors_is
  found_foreign absent none w w' e apart h = cc
  found_foreign absent (some q) w w' e apart h = cc

  found_returns : (o : Option Row) (w : Rows Row) → (found o w).0 ≢ panic
  found_returns none w h = cc
  found_returns (some q) w h = cc

  pub table_with-IsReporting :
      (insert : Row → Eff (Rows Row) Row) (absent : Sentinel)
      → same_sentinel record_not_found absent ≡ false
      → IsReporting (table_with insert) absent
  table_with-IsReporting insert absent apart = record {
    first_returns = λ column value w. found_returns (w value) w;
    first_foreign = λ column value w w' e h. found_foreign absent (w value) w w' e apart h;
    delete_returns = λ id w h. cc;
    delete_foreign = λ id w w' e h. cc;
  }

  pub memory_table-IsReporting :
      (absent : Sentinel)
      → same_sentinel record_not_found absent ≡ false
      → IsReporting memory_table absent
  memory_table-IsReporting absent apart = table_with-IsReporting (λ r. pure r) absent apart
