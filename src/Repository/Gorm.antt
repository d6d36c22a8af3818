-- ===== src/Repository/Gorm.antt =====
-- GORM and the database behind it, which the repositories call: parameters of the model. The
-- records of laws state what GORM documents of a table with soft deletion.
pub mod Memory
use route_planner.Prelude.{
  ℕ, ◌+◌, ◌≡◌, ◌≢◌, ◌↔◌, String, true, false, List, Option, none, some, if◌then◌else◌,
}
use route_planner.Prelude.Text.{str_eq}
use route_planner.Errors.{GoError, Sentinel, record_not_found, errors_is}
use route_planner.Effects.{Outcome, ok, err, panic, Eff}
use route_planner.Models.{Location, Float64}

-- A value in the map that `Updates` takes.
pub data Value : Type 0 where
  text : String → Value
  point : Location → Value
  number : Float64 → Value

-- The calls on one model's table: `Where(column = ?).First`, `Create`, `Where(id = ?).Updates` and
-- `Where(id = ?).Delete`; the last two return `RowsAffected`.
pub record Table (W Row : Type 0) : Type 0 where
  pub first : String → String → Eff W Row
  pub create : Row → Eff W Row
  pub updates : String → List (String × Value) → Eff W ℕ
  pub delete : String → Eff W ℕ

-- `live w id` is the row of this id that is not deleted.
pub record IsTable {W Row : Type 0} (t : Table W Row) (live : W → String → Option Row)
    : Type 0 where
  pub first_found :
      (id : String) (w w' : W) (r : Row) → t.first "id" id w ≡ (ok r, w') → live w id ≡ some r
  pub first_missing :
      (id : String) (w w' : W) (e : GoError)
      → t.first "id" id w ≡ (err e, w')
      → errors_is e record_not_found ≡ true
      → live w id ≡ none
  pub first_reads :
      (column value : String) (w : W) (id : String) → live (t.first column value w).1 id ≡ live w id
  pub delete_done :
      (id : String) (w w' : W) (n : ℕ) → t.delete id w ≡ (ok n, w') → live w' id ≡ none
  pub delete_counts :
      (id : String) (w w' : W) (n : ℕ) → t.delete id w ≡ (ok n, w') → (n ≡ 0) ↔ (live w id ≡ none)
  pub delete_others :
      (id other : String) (w : W) → other ≢ id → live (t.delete id w).1 other ≡ live w other
  pub delete_failed :
      (id : String) (w w' : W) (e : GoError) (other : String)
      → t.delete id w ≡ (err e, w')
      → live w' other ≡ live w other

-- GORM reports what fails as an error, which is none of the program's own.
pub record IsReporting {W Row : Type 0} (t : Table W Row) (absent : Sentinel) : Type 0 where
  pub first_returns : (column value : String) (w : W) → (t.first column value w).0 ≢ panic
  pub first_foreign :
      (column value : String) (w w' : W) (e : GoError)
      → t.first column value w ≡ (err e, w')
      → errors_is e absent ≡ false
  pub delete_returns : (id : String) (w : W) → (t.delete id w).0 ≢ panic
  pub delete_foreign :
      (id : String) (w w' : W) (e : GoError)
      → t.delete id w ≡ (err e, w')
      → errors_is e absent ≡ false

-- An insert that reports success has added a row under the ID of the row that it returns, and left the
-- others. `kept r` is what the database keeps of the row `r`: what a later lookup reads.
pub record IsInserting {W Row : Type 0} (t : Table W Row) (live : W → String → Option Row)
    (id_of : Row → String) (kept : Row → Row) : Type 0 where
  pub inserted :
      (r r' : Row) (w w' : W)
      → t.create r w ≡ (ok r', w')
      → (id : String) → live w' id ≡ (if str_eq id (id_of r') then some (kept r') else live w id)
