-- ===== src/Main/Shutdown.antt =====
-- How `main` ends: it serves until `app.Listen` returns and then waits for the goroutine that a signal
-- wakes, which shuts the server and closes the connections.
pub mod Laws
pub mod Tests
use route_planner.Errors.{GoError}
use route_planner.Prelude.{
  Option, ℕ, suc, ◌≡◌, Bool, true, false, List, [], ◌∷◌, ◌++◌, if◌then◌else◌,
}

-- Where `main` is: in `app.Listen`, at `<-idleConnsClosed`, or past it.
pub data Listener : Type 0 where
  listening : Listener
  waiting : Listener
  finished : Listener

-- Where the goroutine is: at `<-sigint`, or past a call of its body.
pub data Closer : Type 0 where
  no_signal : Closer
  signalled : Closer
  server_shut : Closer
  database_closed : Closer
  redis_closed : Closer
  store_closed : Closer
  channel_closed : Closer

pub data Resource : Type 0 where
  server : Resource
  database : Resource
  redis : Resource
  fiber_store : Resource

-- A call of `Shutdown` or `Close` with the error that it has returned: that of the server is logged, the
-- others are dropped, and the goroutine goes on.
pub record Call : Type 0 where
  pub resource : Resource
  pub failure : Option GoError

-- The process, with the calls so far, in order.
pub data Process : Type 0 where
  process : Listener → Closer → List Call → Process

abbrev pub logged : List Call → Resource → Option GoError → List Call
logged calls r e = calls ++ (record { resource = r; failure = e } ∷ [])

abbrev pub start : Process
start = process listening no_signal []

-- `app.Shutdown()` has returned.
abbrev pub is_shut : Closer → Bool
is_shut no_signal = false
is_shut signalled = false
is_shut c = true

-- The steps of the two goroutines, and of the system that sends the signal. `db_there` tells whether
-- `gormDB.DB()` gives a connection.
pub data Step (db_there : Bool) : Process → Process → Type 0 where
  signal :
      (l : Listener) (calls : List Call)
      → Step db_there (process l no_signal calls) (process l signalled calls)
  shut :
      (l : Listener) (calls : List Call) (e : Option GoError)
      → Step db_there (process l signalled calls) (process l server_shut (logged calls server e))
  close_database :
      (l : Listener) (calls : List Call) (e : Option GoError)
      → Step db_there
          (process l server_shut calls)
          (process l database_closed (if db_there then logged calls database e else calls))
  close_redis :
      (l : Listener) (calls : List Call) (e : Option GoError)
      → Step db_there
          (process l database_closed calls)
          (process l redis_closed (logged calls redis e))
  close_store :
      (l : Listener) (calls : List Call) (e : Option GoError)
      → Step db_there
          (process l redis_closed calls)
          (process l store_closed (logged calls fiber_store e))
  close_channel :
      (l : Listener) (calls : List Call)
      → Step db_there (process l store_closed calls) (process l channel_closed calls)
  -- `app.Listen` fails, as on a port that is taken.
  listen_failed :
      (c : Closer) (calls : List Call)
      → Step db_there (process listening c calls) (process waiting c calls)
  -- `app.Listen` returns once the server has been shut.
  listen_returned :
      (c : Closer) (calls : List Call)
      → is_shut c ≡ true
      → Step db_there (process listening c calls) (process waiting c calls)
  finish :
      (calls : List Call)
      → Step db_there (process waiting channel_closed calls) (process finished channel_closed calls)

pub data Run (db_there : Bool) : Process → Process → Type 0 where
  here : {s : Process} → Run db_there s s
  next : {s t u : Process} → Run db_there s t → Step db_there t u → Run db_there s u

abbrev pub run_length : {db_there : Bool} {s t : Process} → Run db_there s t → ℕ
run_length here = 0
run_length (next run step) = suc (run_length run)
