-- ===== src/Llm/Pool/Lost.antt =====
-- The order of the scan of `errs` and of `wg.Wait()` in `ExtractMultiTags`.
use mathlib.Core.List.{append_assoc, append-nil}
use route_planner.Prelude.{
  ℕ, suc, ◌+◌, ◌≤◌, ◌≡◌, refl, ap, subst, List, [], ◌∷◌, ◌++◌, arith, sym, length, length-append,
}
use route_planner.Llm.Pool.{
  Call, Stage, running, finished, Task, task, spawning, scanning, waiting, returned_results, Pool,
  pool, max_concurrent_requests, start, add, spawn, spawned_all, write, release, done, scan, clean,
  wait, Reaches, here, next,
}

-- The goroutines of the calls, all at one stage.
abbrev pub staged : Stage → List Call → List Task
staged s [] = []
staged s (c ∷ cs) = task s c ∷ staged s cs

length-staged : (s : Stage) (cs : List Call) → length (staged s cs) ≡ length cs
length-staged s [] = refl
length-staged s (c ∷ cs) = ap suc (length-staged s cs)

module _ (s : Pool) where
  spawn_all :
      (rest : List Call) (ts : List Task) (k : ℕ)
      → k + length rest ≤ max_concurrent_requests
      → Reaches s (pool rest ts k k spawning)
      → Reaches s (pool [] (ts ++ staged running rest) (k + length rest) (k + length rest) spawning)
  spawn_all [] ts k few run = let same : k + 0 ≡ k = omega arith in rw (append-nil ts, same) run
  spawn_all (c ∷ rest) ts k few run =
      let turn : k + suc (length rest) ≡ suc k + length rest = omega arith in
      rw (turn, ← append_assoc ts (task running c ∷ []) (staged running rest))
        (spawn_all rest (ts ++ (task running c ∷ [])) (suc k) (omega arith)
          (next _ _ (next _ _ run (add c rest ts k k)) (spawn c rest ts k (suc k) (omega arith))))

  scan_all :
      (after : List Call) (before : List Task) (slots wg : ℕ)
      → Reaches s (pool [] (before ++ staged running after) slots wg (scanning (length before) []))
      → Reaches s (
          pool []
            (before ++ staged running after)
            slots
            wg
            (scanning (length (before ++ staged running after)) []))
  scan_all [] before slots wg run =
      subst (λ ts. Reaches s (pool [] (before ++ []) slots wg (scanning (length ts) [])))
        (sym (append-nil before)) run
  scan_all (c ∷ after) before slots wg run =
      let turn : length (before ++ (task running c ∷ [])) ≡ suc (length before) =
        omega (arith, length-append before (task running c ∷ [])) in
      rw (← append_assoc before (task running c ∷ []) (staged running after)) (
        scan_all after (before ++ (task running c ∷ [])) slots wg (
          rw (append_assoc before (task running c ∷ []) (staged running after), turn)
            (next _ _ run (scan before (staged running after) (task running c) slots wg []))))

  finish_all :
      (after : List Call) (before : List Task)
      → Reaches s (pool [] (before ++ staged running after) (length after) (length after) waiting)
      → Reaches s (pool [] (before ++ staged finished after) 0 0 waiting)
  finish_all [] before run = run
  finish_all (c ∷ after) before run =
      rw (← append_assoc before (task finished c ∷ []) (staged finished after)) (
        finish_all after (before ++ (task finished c ∷ [])) (
          rw (append_assoc before (task finished c ∷ []) (staged running after)) (
            next _ _
              (next _ _ (next _ _ run (write before (staged running after) c [] _ _ waiting))
                (release before (staged running after) c [] _ _ waiting))
              (done before (staged running after) c [] _ _ waiting))))

-- For up to ten segments, whether their requests fail or not, there is a run that returns without an
-- error: the cells of `errs` are read while every request is still in flight, and the wait comes
-- after.
pub pool_lost :
    (calls : List Call)
    → length calls ≤ max_concurrent_requests
    → Reaches (start calls) (pool [] (staged finished calls) 0 0 returned_results)
pool_lost calls few =
    let spawned = spawn_all (start calls) calls [] 0 (omega arith) here in
    let scanned = scan_all (start calls) calls [] _ _ (next _ _ spawned (spawned_all _ _ _)) in
    let same : 0 + length calls ≡ length calls = omega arith in
    next _ _ (finish_all (start calls) calls [] (rw same at (next _ _ scanned (clean _ _ _))))
      (wait _ _)
