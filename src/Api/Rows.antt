-- ===== src/Api/Rows.antt =====
-- What the repositories' calls on a row come back with, and the answers that the handlers make of it.
use mathlib.Core.Path.{fun_ext}
use text.Mathlib.TextEquality.{eq_iff}
use route_planner.Prelude.{
  ℕ, ◌≡◌, ap, sym, refl, subst, true-false, ◌∙◌, inl, inr, String, Bool, true, false, Option, none,
  some, ◌==◌, if◌then◌else◌, Bool-cases, Option-cases, arith, ==_iff,
}
use route_planner.Prelude.Text.{str_eq}
use route_planner.Errors.{GoError, Sentinel, sentinel, same_sentinel, record_not_found, errors_is}
use route_planner.Errors.Response.{Answer, json, not_found, internal_error}
use route_planner.Effects.{Outcome, ok, err, Eff, pure, throw, handle, respond, ◌>>=◌, ◌>>◌}
use route_planner.Effects.Laws.{is_ok, is_err, is_panic, result, outcome_pair}
use route_planner.Repository.Gorm.{Table, IsTable, IsReporting}
use route_planner.Api.{Store, row_answer, answered, was_deleted, without}

-- The call found the row, or there is none, or the database failed.
pub data IsRowCall {Row A : Type 0} (absent : Sentinel) (value : Row → A) (o : Outcome A)
    (row : Option Row) (up : Bool) : Type 0 where
  here : (r : Row) → o ≡ ok (value r) → row ≡ some r → up ≡ true → IsRowCall absent value o row up
  gone : o ≡ err (sentinel absent) → row ≡ none → up ≡ true → IsRowCall absent value o row up
  failed :
      (e : GoError)
      → o ≡ err e
      → errors_is e absent ≡ false
      → up ≡ false
      → IsRowCall absent value o row up

same_sentinel_refl : (s : Sentinel) → same_sentinel s s ≡ true
same_sentinel_refl s = ground arith

module _ (absent : Sentinel) (missing : String) where
  -- The handlers' answer to an error of the service.
  abbrev pub failure_answer : {A : Type 0} → GoError → Answer A
  unfolding errors_is not_found internal_error
  failure_answer e = if errors_is e absent then not_found missing else internal_error e

  module _ {W Row A B : Type 0} (value : Row → A) (say : A → B) (row : Option Row) (up : Bool) where
    pub respond_row :
        (m : Eff W A) (w : W)
        → IsRowCall absent value (m w).0 row up
        → respond m (λ a. json 200 (say a)) failure_answer w
          ≡ (ok (row_answer missing (λ r. say (value r)) up row), (m w).1)
    unfolding errors_is not_found internal_error
    respond_row m w (here r e there answering) = rw (outcome_pair (m w) e, there, answering) refl
    respond_row m w (gone e none_there answering) =
        rw (outcome_pair (m w) e, none_there, answering, same_sentinel_refl absent) refl
    respond_row m w (failed reason e foreign down) = rw (outcome_pair (m w) e, foreign, down) refl

module _ {W Row : Type 0} (db : Table W Row) (absent : Sentinel) where
  -- The repositories' `GetByID`.
  abbrev pub lookup : String → Eff W Row
  unfolding errors_is
  lookup id =
      handle (db.first "id" id) pure
        (λ e. if errors_is e record_not_found then throw (sentinel absent) else throw e)

  -- Their `Update`.
  abbrev pub lookup_only : String → Eff W (Unit {0})
  unfolding errors_is
  lookup_only id = lookup id >> pure tt

  -- Their `Delete`.
  abbrev pub delete_row : String → Eff W (Unit {0})
  delete_row id = db.delete id >>= λ rows. if rows == 0 then throw (sentinel absent) else pure tt

  pub lookup_world : (id : String) (w : W) → (lookup id w).1 ≡ (db.first "id" id w).1
  unfolding errors_is
  lookup_world id w = ground arith

  pub lookup_only_world : (id : String) (w : W) → (lookup_only id w).1 ≡ (db.first "id" id w).1
  unfolding errors_is
  lookup_only_world id w = ground arith

  delete_row_after : (id : String) (w : W) → (delete_row id w).1 ≡ (db.delete id w).1
  delete_row_after id w = ground arith

module _ {W Row : Type 0} (db : Table W Row) {live : W → Store Row} (lawful : IsTable db live)
    (absent : Sentinel) (reports : IsReporting db absent) where
  pub lookup-IsRowCall :
      (id : String) (w : W)
      → IsRowCall absent
          (λ r. r)
          (lookup db absent id w).0
          (live w id)
          (answered (db.first "id" id w).0)
  unfolding errors_is answered
  lookup-IsRowCall id w = elim (result (db.first "id" id w)) [
    | is_ok r w' e ↦ here r (rw e refl) (lawful.first_found id w w' r e) (rw e refl)
    | is_err e w' h ↦ elim (Bool-cases (errors_is e record_not_found)) [
      | inl missing ↦
          gone (rw (h, missing) refl) (lawful.first_missing id w w' e h missing) (rw h missing)
      | inr found ↦
          failed e (rw (h, found) refl) (reports.first_foreign "id" id w w' e h) (rw h found)
    ]
    | is_panic w' h ↦ absurd (reports.first_returns "id" id w (ap (λ r. r.0) h))
  ]

  pub lookup_only-IsRowCall :
      (id : String) (w : W)
      → IsRowCall absent
          (λ (r : Row). tt)
          (lookup_only db absent id w).0
          (live w id)
          (answered (db.first "id" id w).0)
  unfolding errors_is
  lookup_only-IsRowCall id w = elim (lookup-IsRowCall id w) [
    | here r e there answering ↦
        here r (rw (outcome_pair (lookup db absent id w) e) refl) there answering
    | gone e none_there answering ↦
        gone (rw (outcome_pair (lookup db absent id w) e) refl) none_there answering
    | failed reason e foreign down ↦
        failed reason (rw (outcome_pair (lookup db absent id w) e) refl) foreign down
  ]

  pub delete_row-IsRowCall :
      (id : String) (w : W)
      → IsRowCall absent
          (λ (r : Row). tt)
          (delete_row db absent id w).0
          (live w id)
          (was_deleted (db.delete id w).0)
  delete_row-IsRowCall id w = elim (result (db.delete id w)) [
    | is_ok n w' e ↦ elim (Bool-cases (n == 0)) [
      | inl none_touched ↦
          gone (rw (e, none_touched) refl)
            ((lawful.delete_counts id w w' n e).0 ((==_iff n 0).0 none_touched)) (rw e refl)
      | inr touched ↦ elim (Option-cases (live w id)) [
        | inl missing ↦ absurd (
            true-false
              (sym ((==_iff n 0).1 ((lawful.delete_counts id w w' n e).1 missing)) ∙ touched))
        | inr (r, there) ↦ here r (rw (e, touched) refl) there (rw e refl)
      ]
    ]
    | is_err e w' h ↦ failed e (rw h refl) (reports.delete_foreign id w w' e h) (rw h refl)
    | is_panic w' h ↦ absurd (reports.delete_returns id w (ap (λ r. r.0) h))
  ]

  removed :
      (id row_id : String) (n : ℕ) (w w' : W)
      → db.delete id w ≡ (ok n, w')
      → live w' row_id ≡ without id (live w) row_id
  removed id row_id n w w' e = elim (Bool-cases (str_eq row_id id)) [
    | inl same ↦ rw same (
        subst (λ r. live w' r ≡ none) (sym ((eq_iff row_id id).0 same))
          (lawful.delete_done id w w' n e))
    | inr apart ↦ rw apart (
        rw e at (
          lawful.delete_others id row_id w
            (λ same. true-false (sym ((eq_iff row_id id).1 same) ∙ apart))))
  ]

  -- A delete that the database carries out leaves every other row, and one that fails leaves all.
  pub delete_row_rows :
      (id : String) (w : W)
      → live (delete_row db absent id w).1
        ≡ (if was_deleted (db.delete id w).0 then without id (live w) else live w)
  delete_row_rows id w = elim (result (db.delete id w)) [
    | is_ok n w' e ↦
        rw (delete_row_after db absent id w, e) (fun_ext λ row_id. removed id row_id n w w' e)
    | is_err e w' h ↦
        rw (delete_row_after db absent id w, h)
          (fun_ext λ row_id. lawful.delete_failed id w w' e row_id h)
    | is_panic w' h ↦ absurd (reports.delete_returns id w (ap (λ r. r.0) h))
  ]
