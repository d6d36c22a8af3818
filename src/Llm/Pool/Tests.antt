-- ===== src/Llm/Pool/Tests.antt =====
-- A run of `ExtractMultiTags` for one segment whose request fails.
use route_planner.Prelude.{ℕ, ◌≡◌, ◌≤◌, List, [], ◌∷◌, map, arith}
use route_planner.Prelude.Text.{codes}
use route_planner.Errors.{GoError, other}
use route_planner.Llm.Pool.{
  Call, failed, tags_of, running, written, finished, task, spawning, returned_errors,
  returned_results, Pool, pool, start, Reaches, here, next, add, spawn, spawned_all, write, scan,
  report, results,
}
use route_planner.Llm.Pool.Invariant.{pool_bounded, pool_results}
use route_planner.Llm.Pool.Counts.{holding, unfinished}
use route_planner.Prelude.{◌+◌}
use route_planner.Llm.Pool.Progress.{IsReturned, pool_returns}
use route_planner.Llm.Pool.Lost.{staged, pool_lost}

abbrev call : Call
call = record { text = codes "cafe"; outcome = failed (other "ollama status: 500") }

abbrev calls : List Call
calls = call ∷ []

abbrev spawned : Pool
spawned = pool [] (task running call ∷ []) 1 1 spawning

started : Reaches (start calls) spawned
started =
    next _ spawned (next (start calls) _ here (add call [] [] 0 0))
      (spawn call [] [] 0 1 (omega arith))

abbrev errors : List (ℕ × GoError)
errors = (0, other "ollama status: 500") ∷ []

abbrev reported : Pool
reported = pool [] (task written call ∷ []) 1 1 (returned_errors errors)

told : Reaches (start calls) reported
told =
    next _ reported
      (next _ _ (next _ _ (next _ _ started (write [] [] call [] 1 1 spawning)) (spawned_all _ 1 1))
        (scan [] [] (task written call) 1 1 []))
      (report (task written call ∷ []) 1 1 (0, other "ollama status: 500") [])

pool_bounded_example :
    (holding (task running call ∷ []) ≤ 10) × (1 ≡ unfinished (task running call ∷ []) + 0)
pool_bounded_example = pool_bounded calls [] (task running call ∷ []) 1 1 spawning started

pool_lost_example : Reaches (start calls) (pool [] (staged finished calls) 0 0 returned_results)
pool_lost_example = pool_lost calls (omega arith)

pool_results_example :
    (unfinished (staged finished calls) ≡ 0)
    × (results (staged finished calls) ≡ map (λ c. tags_of c.outcome) calls)
pool_results_example =
    pool_results calls [] (staged finished calls) 0 0 (pool_lost calls (omega arith))

pool_returns_example : (q : Pool) × Reaches spawned q × IsReturned q
pool_returns_example = pool_returns calls spawned started
