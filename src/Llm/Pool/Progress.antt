-- ===== src/Llm/Pool/Progress.antt =====
-- `ExtractMultiTags` always comes to its return: it never blocks for good.
use route_planner.Prelude.{
  ℕ, zero, suc, ◌+◌, ◌<◌, ◌≡◌, refl, ap, ◌⊎◌, inl, inr, List, [], ◌∷◌, ◌++◌, arith, length,
}
use native.Mathlib.Decide.{dec_lt}
use route_planner.Errors.{GoError}
use route_planner.Llm.Pool.{
  Call, Stage, running, written, released, finished, Task, task, Main, spawning, sending, scanning,
  waiting, returned_errors, returned_results, Pool, pool, max_concurrent_requests, start, Step, add,
  spawn, spawned_all, write, release, done, scan, report, clean, wait, Reaches, here, next,
}
use route_planner.Llm.Pool.Counts.{
  holding, unfinished, holding-append, unfinished-append, holding-le-unfinished,
}
use route_planner.Llm.Pool.Invariant.{ahead, IsPool, Reaches-IsPool}
use route_planner.Llm.Pool.Termination.{
  IsScan, Reaches-IsScan, steps_of, steps_left, Step-steps_left,
}

-- The function has returned.
abbrev pub IsReturned : Pool → Type 0
IsReturned (pool rest tasks slots wg spawning) = ⊥
IsReturned (pool rest tasks slots wg sending) = ⊥
IsReturned (pool rest tasks slots wg (scanning k errors)) = ⊥
IsReturned (pool rest tasks slots wg waiting) = ⊥
IsReturned (pool rest tasks slots wg (returned_errors errors)) = Unit
IsReturned (pool rest tasks slots wg returned_results) = Unit

-- A goroutine that has not ended, among the others.
data Pending (ts : List Task) : Type 0 where
  pending :
      (before after : List Task) (s : Stage) (c : Call)
      → 0 < steps_of s
      → ts ≡ before ++ (task s c ∷ after)
      → Pending ts

later-Pending : (t : Task) (ts : List Task) → Pending ts → Pending (t ∷ ts)
later-Pending t ts (pending before after s c more split) =
    pending (t ∷ before) after s c more (ap (λ us. t ∷ us) split)

unfinished-Pending : (ts : List Task) → 0 < unfinished ts → Pending ts
unfinished-Pending [] h = absurd (omega arith)
unfinished-Pending (task running c ∷ ts) h = pending [] ts running c (omega arith) refl
unfinished-Pending (task written c ∷ ts) h = pending [] ts written c (omega arith) refl
unfinished-Pending (task released c ∷ ts) h = pending [] ts released c (omega arith) refl
unfinished-Pending (task finished c ∷ ts) h = later-Pending _ ts (unfinished-Pending ts h)

-- There is a step from the state.
abbrev Moves : Pool → Type 0
Moves p = (q : Pool) × Step p q

stage-Moves :
    (before after : List Task) (s : Stage) (c : Call) (rest : List Call) (slots wg : ℕ) (m : Main)
    → 0 < steps_of s
    → slots ≡ holding (before ++ (task s c ∷ after))
    → wg ≡ unfinished (before ++ (task s c ∷ after)) + ahead m
    → Moves (pool rest (before ++ (task s c ∷ after)) slots wg m)
stage-Moves before after running c rest slots wg m more held counted =
    (_, write before after c rest slots wg m)
stage-Moves before after written c rest zero wg m more held counted =
    absurd (omega (arith, holding-append before (task written c ∷ after)))
stage-Moves before after written c rest (suc slots) wg m more held counted =
    (_, release before after c rest slots wg m)
stage-Moves before after released c rest slots zero m more held counted =
    absurd (omega (arith, unfinished-append before (task released c ∷ after)))
stage-Moves before after released c rest slots (suc wg) m more held counted =
    (_, done before after c rest slots wg m)
stage-Moves before after finished c rest slots wg m more held counted = absurd (omega arith)

Pending-Moves :
    (ts : List Task) (rest : List Call) (slots wg : ℕ) (m : Main)
    → Pending ts
    → slots ≡ holding ts
    → wg ≡ unfinished ts + ahead m
    → Moves (pool rest ts slots wg m)
Pending-Moves ts rest slots wg m (pending before after s c more split) held counted =
    rw split
      (stage-Moves before after s c rest slots wg m more (rw split at held) (rw split at counted))

-- The cell that a scan reads next.
data Cell (ts : List Task) (k : ℕ) : Type 0 where
  cell :
      (before after : List Task) (t : Task)
      → ts ≡ before ++ (t ∷ after)
      → k ≡ length before
      → Cell ts k

Cell-of : (ts : List Task) (k : ℕ) → k < length ts → Cell ts k
Cell-of [] k h = absurd (omega arith)
Cell-of (t ∷ ts) zero h = cell [] ts t refl refl
Cell-of (t ∷ ts) (suc k) h = later_cell (Cell-of ts k (omega arith))
  where
    later_cell : Cell ts k → Cell (t ∷ ts) (suc k)
    later_cell (cell before after u split index) =
        cell (t ∷ before) after u (ap (λ us. t ∷ us) split) (ap suc index)

scan-Moves :
    (ts : List Task) (slots wg k : ℕ) (errors : List (ℕ × GoError))
    → Cell ts k
    → Moves (pool [] ts slots wg (scanning k errors))
scan-Moves ts slots wg k errors (cell before after t split index) =
    rw (split, index) (_, scan before after t slots wg errors)

end-Moves :
    (ts : List Task) (slots wg : ℕ) (errors : List (ℕ × GoError))
    → Moves (pool [] ts slots wg (scanning (length ts) errors))
end-Moves ts slots wg [] = (_, clean ts slots wg)
end-Moves ts slots wg (e ∷ errors) = (_, report ts slots wg e errors)

moves :
    (calls rest : List Call) (ts : List Task) (slots wg : ℕ) (m : Main)
    → IsPool calls (pool rest ts slots wg m)
    → IsScan (pool rest ts slots wg m)
    → IsReturned (pool rest ts slots wg m) ⊎ Moves (pool rest ts slots wg m)
moves calls [] ts slots wg spawning inv h = inr (_, spawned_all ts slots wg)
moves calls (c ∷ rest) ts slots wg spawning inv h = inr (_, add c rest ts slots wg)
moves calls [] ts slots wg sending (held, most, counted, same, m) h = absurd (m refl)
moves calls (c ∷ rest) ts slots wg sending (held, most, counted, same, m) h =
    elim (dec_lt slots max_concurrent_requests) [
      | yes free ↦ inr (_, spawn c rest ts slots wg free)
      | no full ↦ inr (
          Pending-Moves ts (c ∷ rest) slots wg sending
            (unfinished-Pending ts (omega (arith, holding-le-unfinished ts))) held counted)
    ]
moves calls rest ts slots wg (scanning k errors) (held, most, counted, same, (none_left, real)) h =
    elim (dec_lt k (length ts)) [
      | yes more ↦ inr (rw none_left (scan-Moves ts slots wg k errors (Cell-of ts k more)))
      | no ended ↦
          (let last : k ≡ length ts = omega arith in
            inr (rw (none_left, last) (end-Moves ts slots wg errors)))
    ]
moves calls rest ts slots zero waiting (held, most, counted, same, none_left) h =
    inr (rw none_left (_, wait ts slots))
moves calls rest ts slots (suc wg) waiting (held, most, counted, same, none_left) h = inr (
    Pending-Moves ts rest slots (suc wg) waiting (unfinished-Pending ts (omega arith)) held counted)
moves calls rest ts slots wg (returned_errors errors) inv h = inl tt
moves calls rest ts slots wg returned_results inv h = inl tt

-- A state that has not returned has a step: the function and its goroutines never block one another
-- for good.
pub pool_progress :
    (calls : List Call) (p : Pool)
    → Reaches (start calls) p
    → IsReturned p ⊎ ((q : Pool) × Step p q)
pool_progress calls (pool rest ts slots wg m) run =
    moves calls rest ts slots wg m (Reaches-IsPool calls _ run) (Reaches-IsScan calls _ run)

Step-Reaches : (p q r : Pool) → Step p q → Reaches q r → Reaches p r
Step-Reaches p q _ first here = next p q here first
Step-Reaches p q _ first (next t u run last) = next t u (Step-Reaches p q t first run) last

returns_within :
    (n : ℕ) (calls : List Call) (p : Pool)
    → steps_left p < n
    → Reaches (start calls) p
    → (q : Pool) × Reaches p q × IsReturned q
returns_within zero calls p few run = absurd (omega arith)
returns_within (suc n) calls p few run = elim (pool_progress calls p run) [
  | inl ended ↦ (p, here, ended)
  | inr (q, first) ↦
      let (r, rest, ended) =
        returns_within n calls q (omega (arith, Step-steps_left p q first)) (next p q run first) in
      (r, Step-Reaches p q r first rest, ended)
]

-- From every state that a run has come to, the function can go on to its return, with every goroutine
-- taking its turns in some order.
pub pool_returns :
    (calls : List Call) (p : Pool)
    → Reaches (start calls) p
    → (q : Pool) × Reaches p q × IsReturned q
pool_returns calls p run = returns_within (suc (steps_left p)) calls p (omega arith) run
