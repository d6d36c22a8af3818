-- ===== src/Repository/Places/Laws.antt =====
-- The place repository over a table that keeps GORM's laws.
use route_planner.Prelude.{ℕ, ◌≡◌, ◌≢◌, String, Option, none, some, arith}
use route_planner.Errors.{sentinel, record_not_found, errors_is}
use route_planner.Effects.{ok, err, pure}
use route_planner.Effects.Laws.{>>=-eq-ok, outcome_pair}
use route_planner.Models.{Place, PlaceUpdateRequest}
use route_planner.Repository.Gorm.{Table, IsTable}
use route_planner.Repository.Places.{PlaceQueries, get_by_id, update, delete}

module _ {W : Type 0} (db : Table W Place) (queries : PlaceQueries W) where
  get_by_id_found :
      (id : String) (w w' : W) (p : Place)
      → get_by_id db queries id w ≡ (ok p, w')
      → db.first "id" id w ≡ (ok p, w')
  unfolding get_by_id
  get_by_id_found id w w' p h = ground arith

  -- A lookup leaves the world that the query leaves.
  get_by_id_world : (id : String) (w : W) → (get_by_id db queries id w).1 ≡ (db.first "id" id w).1
  unfolding get_by_id
  get_by_id_world id w = ground arith

  -- GORM's own not-found error never leaves the repository.
  pub get_by_id-ne-record_not_found :
      (id : String) (w : W) → (get_by_id db queries id w).0 ≢ err (sentinel record_not_found)
  unfolding get_by_id errors_is
  get_by_id-ne-record_not_found id w = ground arith

  update_found :
      (id : String) (p : PlaceUpdateRequest) (w w' : W)
      → update db queries id p w ≡ (ok tt, w')
      → (r : Place) × (get_by_id db queries id w ≡ (ok r, w'))
  unfolding update
  update_found id p w w' h =
      let (r, w₁, found, last) = >>=-eq-ok (get_by_id db queries id) (λ _. pure tt) w tt w' h in
      (r, cc)

  delete_rows :
      (id : String) (w w' : W)
      → delete db queries id w ≡ (ok tt, w')
      → (n : ℕ) × (db.delete id w ≡ (ok n, w')) × (n ≢ 0)
  unfolding delete
  delete_rows id w w' h =
      let (n, w₁, done, last) = >>=-eq-ok (db.delete id) _ w tt w' h in
      (n, ground arith, ground arith)

module _ {W : Type 0} (db : Table W Place) (queries : PlaceQueries W)
    {live : W → String → Option Place} (lawful : IsTable db live) where
  -- An update that reports success, whatever fields it was given, found the row and changed no row:
  -- the new values are lost.
  pub update_lost :
      (id : String) (p : PlaceUpdateRequest) (w w' : W)
      → update db queries id p w ≡ (ok tt, w')
      → (r : Place) × (live w id ≡ some r) × ((other : String) → live w' other ≡ live w other)
  update_lost id p w w' h =
      let (r, found) = update_found db queries id p w w' h in
      let query = get_by_id_found db queries id w w' r found in
      (
        r,
        lawful.first_found id w w' r query,
        λ other. (rw query at (lawful.first_reads "id" id w other)),
      )

  -- A delete that reports success removed a row that was there, so that no lookup finds it any
  -- more, and left every other row.
  pub delete_done :
      (id : String) (w w' : W)
      → delete db queries id w ≡ (ok tt, w')
      → (live w id ≢ none)
        × ((p : Place) → (get_by_id db queries id w').0 ≢ ok p)
        × ((other : String) → other ≢ id → live w' other ≡ live w other)
  delete_done id w w' h =
      let (n, done, some_row) = delete_rows db queries id w w' h in
      (
        λ gone. some_row ((lawful.delete_counts id w w' n done).1 gone),
        λ p found.
            (let query = get_by_id_found db queries id w' _ p (outcome_pair _ found) in
              cc (lawful.first_found id w' _ p query, lawful.delete_done id w w' n done)),
        λ other differ. (rw done at (lawful.delete_others id other w differ)),
      )

  -- Deleting an id that has no row is never a success.
  pub delete_missing : (id : String) (w : W) → live w id ≡ none → (delete db queries id w).0 ≢ ok tt
  delete_missing id w gone h =
      let (n, done, some_row) = delete_rows db queries id w _ (outcome_pair _ h) in
      some_row ((lawful.delete_counts id w _ n done).1 gone)
