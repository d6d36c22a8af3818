-- ===== src/Main/Shutdown/Tests.antt =====
-- A run in which the signal comes before the server stops by itself.
use route_planner.Prelude.{◌≡◌, refl, true, none, some, List, [], ◌∷◌}
use route_planner.Errors.{other}
use route_planner.Main.Shutdown.{
  finished, channel_closed, server, database, redis, fiber_store, Call, Process, process, start,
  Step, signal, shut, close_database, close_redis, close_store, close_channel, listen_returned,
  finish, Run, here, next, run_length,
}
use route_planner.Main.Shutdown.Laws.{all_closed, called, finished-all_closed, main_returns}

-- The server's shutdown fails, and what comes after it is called all the same.
abbrev calls : List Call
calls =
    record { resource = server; failure = some (other "shutdown") }
    ∷ record { resource = database; failure = none }
    ∷ record { resource = redis; failure = none }
    ∷ record { resource = fiber_store; failure = none }
    ∷ []

abbrev ended : Process
ended = process finished channel_closed calls

abbrev run : Run true start ended
run =
    next
      (next
        (next
          (next
            (next
              (next (next (next here (signal _ _)) (shut _ _ (some (other "shutdown"))))
                (listen_returned _ _ refl))
              (close_database _ _ none))
            (close_redis _ _ none))
          (close_store _ _ none))
        (close_channel _ _))
      (finish _)

ended_stuck : (t : Process) → ¬ (Step true ended t)
ended_stuck t step = elim step [ ]

finished-all_closed_example : called calls ≡ all_closed true
finished-all_closed_example = finished-all_closed channel_closed calls run

main_returns_example :
    (finished ≡ finished) × (channel_closed ≡ channel_closed) × (run_length run ≡ 8)
main_returns_example = main_returns finished channel_closed calls run ended_stuck
