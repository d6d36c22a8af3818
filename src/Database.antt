-- ===== src/Database.antt =====
-- pkg/db/database.go: the connection to the database.
use route_planner.Prelude.{ℕ, String}
use route_planner.Effects.{Outcome, ok, err, panic, Eff}

-- How far a part of the start of the program comes: a value, an exit with a code, or a panic.
pub data Boot (A : Type 0) : Type 0 where
  up : A → Boot A
  exited : ℕ → Boot A
  panicked : Boot A

-- `gorm.Open` with the driver for PostgreSQL, and `AutoMigrate` of the two models.
pub record Gorm (W D : Type 0) : Type 0 where
  pub open_with : String → Eff W D
  pub auto_migrate : D → Eff W (Unit {0})

abbrev migrated : {W D : Type 0} → D → Outcome (Unit {0}) × W → Boot D × W
migrated db (ok done, w) = (up db, w)
migrated db (err e, w) = (exited 1, w)
migrated db (panic, w) = (panicked, w)

abbrev opened : {W D : Type 0} → Gorm W D → Outcome D × W → Boot D × W
opened gorm (ok db, w) = migrated db (gorm.auto_migrate db w)
opened gorm (err e, w) = (exited 1, w)
opened gorm (panic, w) = (panicked, w)

abbrev pub init_db : {W D : Type 0} → Gorm W D → String → W → Boot D × W
init_db gorm dsn w = opened gorm (gorm.open_with dsn w)
