-- ===== src/Main/Shutdown/Laws.antt =====
-- The process ends after a signal with everything closed, and not before one.
use route_planner.Errors.{GoError}
use route_planner.Prelude.{
  Option, none, ℕ, suc, ◌+◌, ◌≤◌, ◌≡◌, ◌≢◌, ◌∙◌, refl, ap, Bool, true, false, List, [], ◌∷◌, ◌++◌,
  if◌then◌else◌, arith,
}
use route_planner.Main.Shutdown.{
  Listener, listening, waiting, finished, Closer, no_signal, signalled, server_shut,
  database_closed, redis_closed, store_closed, channel_closed, Resource, server, database, redis,
  fiber_store, Call, Process, process, logged, start, Step, signal, shut, close_database,
  close_redis, close_store, close_channel, listen_failed, listen_returned, finish, Run, here, next,
  run_length,
}

-- What the goroutine has called `Shutdown` and `Close` of at the end.
abbrev pub all_closed : Bool → List Resource
all_closed db_there =
    server ∷ ((if db_there then database ∷ [] else []) ++ (redis ∷ fiber_store ∷ []))

-- What it has called them of when it is there.
abbrev closed_at : Bool → Closer → List Resource
closed_at db_there no_signal = []
closed_at db_there signalled = []
closed_at db_there server_shut = server ∷ []
closed_at db_there database_closed = server ∷ (if db_there then database ∷ [] else [])
closed_at db_there redis_closed =
    server ∷ ((if db_there then database ∷ [] else []) ++ (redis ∷ []))
closed_at db_there store_closed = all_closed db_there
closed_at db_there channel_closed = all_closed db_there

-- `main` is past the wait only when the channel is closed.
abbrev IsPast : Listener → Closer → Type 0
IsPast finished c = c ≡ channel_closed
IsPast l c = Unit

-- The resources of the calls.
abbrev pub called : List Call → List Resource
called [] = []
called (c ∷ calls) = c.resource ∷ called calls

called-logged :
    (calls : List Call) (r : Resource) (e : Option GoError)
    → called (logged calls r e) ≡ called calls ++ (r ∷ [])
called-logged [] r e = refl
called-logged (c ∷ calls) r e = ap (λ rs. c.resource ∷ rs) (called-logged calls r e)

abbrev IsProcess : Bool → Process → Type 0
IsProcess db_there (process l c calls) = (called calls ≡ closed_at db_there c) × IsPast l c

-- `main` is not past the wait while the channel is open.
IsPast-channel_closed :
    (c c' : Closer) (l : Listener) → c ≢ channel_closed → IsPast l c → IsPast l c'
IsPast-channel_closed c c' listening open_yet h = tt
IsPast-channel_closed c c' waiting open_yet h = tt
IsPast-channel_closed c c' finished open_yet h = absurd (open_yet h)

stores_closed :
    (db_there : Bool) → closed_at db_there redis_closed ++ (fiber_store ∷ []) ≡ all_closed db_there
stores_closed true = refl
stores_closed false = refl

database-called :
    (db_there : Bool) (calls : List Call) (e : Option GoError)
    → called calls ≡ server ∷ []
    → called (if db_there then logged calls database e else calls)
      ≡ server ∷ (if db_there then database ∷ [] else [])
database-called true calls e h = called-logged calls database e ∙ rw h refl
database-called false calls e h = h

Step-IsProcess :
    {db_there : Bool} {s t : Process}
    → IsProcess db_there s
    → Step db_there s t
    → IsProcess db_there t
Step-IsProcess h (signal l calls) = (h.0, IsPast-channel_closed _ _ l (λ e. cc) h.1)
Step-IsProcess h (shut l calls e) =
    (called-logged calls server e ∙ rw h.0 refl, IsPast-channel_closed _ _ l (λ e. cc) h.1)
Step-IsProcess {db_there} h (close_database l calls e) =
    (database-called db_there calls e h.0, IsPast-channel_closed _ _ l (λ e. cc) h.1)
Step-IsProcess {db_there} h (close_redis l calls e) =
    (called-logged calls redis e ∙ rw h.0 refl, IsPast-channel_closed _ _ l (λ e. cc) h.1)
Step-IsProcess {db_there} h (close_store l calls e) = (
  called-logged calls fiber_store e ∙ rw h.0 (stores_closed db_there),
  IsPast-channel_closed _ _ l (λ e. cc) h.1,
)
Step-IsProcess h (close_channel l calls) = (h.0, IsPast-channel_closed _ _ l (λ e. cc) h.1)
Step-IsProcess h (listen_failed c calls) = (h.0, tt)
Step-IsProcess h (listen_returned c calls done) = (h.0, tt)
Step-IsProcess h (finish calls) = (h.0, refl)

Run-IsProcess : {db_there : Bool} {s : Process} → Run db_there start s → IsProcess db_there s
Run-IsProcess here = (refl, tt)
Run-IsProcess (next run step) = Step-IsProcess (Run-IsProcess run) step

-- When `main` has returned, `Shutdown` of the server has been called, and then `Close` of the database's
-- connection, if there is one, of Redis and of the limiters' store, each once and in this order,
-- whatever errors the calls have returned.
pub finished-all_closed :
    {db_there : Bool} (c : Closer) (calls : List Call)
    → Run db_there start (process finished c calls)
    → called calls ≡ all_closed db_there
finished-all_closed c calls run = let (log, past) = Run-IsProcess run in log ∙ ap (closed_at _) past

-- The steps that are left, at most.
abbrev closer_left : Closer → ℕ
closer_left no_signal = 6
closer_left signalled = 5
closer_left server_shut = 4
closer_left database_closed = 3
closer_left redis_closed = 2
closer_left store_closed = 1
closer_left channel_closed = 0

abbrev listener_left : Listener → ℕ
listener_left listening = 2
listener_left waiting = 1
listener_left finished = 0

abbrev left : Process → ℕ
left (process l c calls) = listener_left l + closer_left c

Step-left : {db_there : Bool} {s t : Process} → Step db_there s t → suc (left t) ≡ left s
Step-left (signal l calls) = omega arith
Step-left (shut l calls e) = omega arith
Step-left (close_database l calls e) = omega arith
Step-left (close_redis l calls e) = omega arith
Step-left (close_store l calls e) = omega arith
Step-left (close_channel l calls) = omega arith
Step-left (listen_failed c calls) = omega arith
Step-left (listen_returned c calls done) = omega arith
Step-left (finish calls) = refl

Run-left :
    {db_there : Bool} {s t : Process} (run : Run db_there s t) → run_length run + left t ≡ left s
Run-left here = omega arith
Run-left (next run step) = omega (arith, Run-left run, Step-left step)

-- No run has more than eight steps.
pub run_length-le :
    {db_there : Bool} {s : Process} (run : Run db_there start s) → run_length run ≤ 8
run_length-le run = omega (arith, Run-left run)

-- In whatever order the goroutines go, a run from the start that no step goes on from is one of eight
-- steps, at the end of which the channel is closed and `main` has returned.
pub main_returns :
    {db_there : Bool} (l : Listener) (c : Closer) (calls : List Call)
    (run : Run db_there start (process l c calls))
    → ((t : Process) → ¬ (Step db_there (process l c calls) t))
    → (l ≡ finished) × (c ≡ channel_closed) × (run_length run ≡ 8)
main_returns listening c calls run stuck = absurd (stuck _ (listen_failed c calls))
main_returns l no_signal calls run stuck = absurd (stuck _ (signal l calls))
main_returns l signalled calls run stuck = absurd (stuck _ (shut l calls none))
main_returns l server_shut calls run stuck = absurd (stuck _ (close_database l calls none))
main_returns l database_closed calls run stuck = absurd (stuck _ (close_redis l calls none))
main_returns l redis_closed calls run stuck = absurd (stuck _ (close_store l calls none))
main_returns l store_closed calls run stuck = absurd (stuck _ (close_channel l calls))
main_returns waiting channel_closed calls run stuck = absurd (stuck _ (finish calls))
main_returns finished channel_closed calls run stuck = (refl, refl, omega (arith, Run-left run))

-- After `app.Listen` has failed, nothing but the signal moves the process.
pub failed_listen_waits :
    {db_there : Bool} (calls : List Call) (t : Process)
    → Step db_there (process waiting no_signal calls) t
    → t ≡ process waiting signalled calls
failed_listen_waits calls t (signal l calls') = refl
