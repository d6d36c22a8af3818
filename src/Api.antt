-- ===== src/Api.antt =====
-- What the endpoints of internal/places/handlers.go and internal/users/handlers.go have alike: they
-- look up, change and delete the rows of one table by their ID. Beside them stands the store of rows
-- that they are compared with: a partial function from IDs to rows.
pub mod Bodies
pub mod Rows
pub mod Runs
pub mod Served
use mathlib.Core.Logic.{◌≢◌}
use route_planner.Prelude.{
  ℕ, ◌≡◌, String, Bool, true, false, ◌&&◌, Option, none, some, List, [], ◌∷◌, if◌then◌else◌,
}
use route_planner.Prelude.Text.{str_eq}
use route_planner.Errors.{GoError, Sentinel, other, record_not_found, errors_is}
use route_planner.Errors.Response.{Answer, json, bad_request_err, not_found, internal_error}
use route_planner.Effects.{Outcome, ok, err, panic, Eff, pure, ◌>>=◌}
use route_planner.Repository.Gorm.{Table}

-- GET, PATCH and DELETE of /{id}; a body that does not parse is `none`.
pub data Request (Body : Type 0) : Type 0 where
  look drop : String → Request Body
  change : String → Option Body → Request Body

-- An answer with a row, or one that says what was done.
pub data Reply (Row Done : Type 0) : Type 0 where
  shown : Answer Row → Reply Row Done
  told : Answer Done → Reply Row Done

-- The handlers of the three endpoints.
pub record Endpoints (W Row Body Done : Type 0) : Type 0 where
  pub look : String → Eff W (Answer Row)
  pub change : String → Option Body → Eff W (Answer Done)
  pub drop : String → Eff W (Answer Done)

module _ {W Row Body Done : Type 0} (endpoints : Endpoints W Row Body Done) where
  abbrev pub handle_request : Request Body → Eff W (Reply Row Done)
  handle_request (look id) = endpoints.look id >>= λ a. pure (shown a)
  handle_request (change id body) = endpoints.change id body >>= λ a. pure (told a)
  handle_request (drop id) = endpoints.drop id >>= λ a. pure (told a)

  -- One request after the other.
  abbrev pub handle_requests : List (Request Body) → Eff W (List (Reply Row Done))
  handle_requests [] = pure []
  handle_requests (r ∷ rs) =
      handle_request r >>= λ a. handle_requests rs >>= λ answers. pure (a ∷ answers)

-- The rows that are there, by their IDs.
abbrev pub Store : Type 0 → Type 0
Store Row = String → Option Row

abbrev pub without : {Row : Type 0} → String → Store Row → Store Row
without id s row_id = if str_eq row_id id then none else s row_id

abbrev pub with_row : {Row : Type 0} → String → Row → Store Row → Store Row
with_row id r s row_id = if str_eq row_id id then some r else s row_id

-- What the two kinds of rows differ in: the IDs that are valid, the answer to a body that is not, and
-- the texts.
pub record Rules (Body Done : Type 0) : Type 0 where
  pub valid : String → Bool
  pub body_refused : Option Body → Option (Answer Done)
  pub missing : String
  pub changed : Done
  pub dropped : Done

abbrev pub invalid_id : {A : Type 0} → Answer A
invalid_id = bad_request_err (other "ID must be a valid UUID")

-- The answer for a row, `up` saying whether the database answered.
abbrev pub row_answer : {Row A : Type 0} → String → (Row → A) → Bool → Option Row → Answer A
row_answer missing say false row = internal_error (other "")
row_answer missing say true none = not_found missing
row_answer missing say true (some r) = json 200 (say r)

module _ {Row Body Done : Type 0} (rules : Rules Body Done) where
  abbrev serve_body : Bool → Option (Answer Done) → Option Row → Answer Done
  serve_body up (some refused) row = refused
  serve_body up none row = row_answer rules.missing (λ _. rules.changed) up row

  -- A request to the store. A change is answered as though it was made, and changes no row.
  abbrev pub serve : Bool → Request Body → Store Row → Reply Row Done × Store Row
  serve up (look id) s =
      let answer =
        if rules.valid id then row_answer rules.missing (λ r. r) up (s id) else invalid_id in
      (shown answer, s)
  serve up (change id body) s =
      let answer =
        if rules.valid id then serve_body up (rules.body_refused body) (s id) else invalid_id in
      (told answer, s)
  serve up (drop id) s =
      let answer =
        if rules.valid id
        then row_answer rules.missing (λ _. rules.dropped) up (s id)
        else invalid_id in
      (told answer, if rules.valid id && up then without id s else s)

  abbrev pub serve_requests :
      List (Bool × Request Body) → Store Row → List (Reply Row Done) × Store Row
  serve_requests [] s = ([], s)
  serve_requests ((up, r) ∷ rs) s =
      let (a, s') = serve up r s in let (answers, s'') = serve_requests rs s' in (a ∷ answers, s'')

-- The database answered: a row, or that there is none.
unfoldable pub answered : {A : Type 0} → Outcome A → Bool
unfolding errors_is
answered (ok _) = true
answered (err e) = errors_is e record_not_found
answered panic = false

abbrev pub was_deleted : Outcome ℕ → Bool
was_deleted (ok _) = true
was_deleted _ = false

-- Does the database answer the query that the request makes?
unfoldable pub is_up : {W Row Body : Type 0} → Table W Row → Request Body → W → Bool
unfolding answered
is_up db (look id) w = answered (db.first "id" id w).0
is_up db (change id body) w = answered (db.first "id" id w).0
is_up db (drop id) w = was_deleted (db.delete id w).0
