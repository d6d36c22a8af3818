-- ===== src/Llm/Pool/Termination.antt =====
-- No run of `ExtractMultiTags` and its goroutines is endless.
use route_planner.Prelude.{
  ℕ, suc, ◌+◌, ◌-◌, ◌*◌, ◌≤◌, ◌<◌, ◌≡◌, List, [], ◌∷◌, ◌++◌, arith, length, length-append,
}
use route_planner.Llm.Pool.{
  Call, Stage, running, written, released, finished, Task, task, Main, spawning, sending, scanning,
  waiting, returned_errors, returned_results, Pool, pool, start, Step, add, spawn, spawned_all,
  write, release, done, scan, report, clean, wait, Reaches, here, next,
}

-- The scan reads no cell past the last.
abbrev pub IsScan : Pool → Type 0
IsScan (pool rest tasks slots wg (scanning k errors)) = k ≤ length tasks
IsScan _ = Unit

length_same :
    (before after : List Task) (t u : Task)
    → length (before ++ (t ∷ after)) ≡ length (before ++ (u ∷ after))
length_same before after t u =
    omega (arith, length-append before (t ∷ after), length-append before (u ∷ after))

same-IsScan :
    (before after : List Task) (t u : Task) (rest : List Call) (s w s' w' : ℕ) (m : Main)
    → IsScan (pool rest (before ++ (t ∷ after)) s w m)
    → IsScan (pool rest (before ++ (u ∷ after)) s' w' m)
same-IsScan before after t u rest s w s' w' spawning h = tt
same-IsScan before after t u rest s w s' w' sending h = tt
same-IsScan before after t u rest s w s' w' (scanning k errors) h =
    omega (arith, length_same before after t u)
same-IsScan before after t u rest s w s' w' waiting h = tt
same-IsScan before after t u rest s w s' w' (returned_errors errors) h = tt
same-IsScan before after t u rest s w s' w' returned_results h = tt

Step-IsScan : (p q : Pool) → Step p q → IsScan p → IsScan q
Step-IsScan _ _ (add c rest ts slots wg) h = tt
Step-IsScan _ _ (spawn c rest ts slots wg free) h = tt
Step-IsScan _ _ (spawned_all ts slots wg) h = omega arith
Step-IsScan _ _ (write before after c rest slots wg m) h =
    same-IsScan before after (task running c) (task written c) rest slots wg slots wg m h
Step-IsScan _ _ (release before after c rest slots wg m) h =
    same-IsScan before after (task written c) (task released c) rest (suc slots) wg slots wg m h
Step-IsScan _ _ (done before after c rest slots wg m) h =
    same-IsScan before after (task released c) (task finished c) rest slots (suc wg) slots wg m h
Step-IsScan _ _ (scan before after t slots wg errors) h =
    omega (arith, length-append before (t ∷ after))
Step-IsScan _ _ (report ts slots wg e errors) h = tt
Step-IsScan _ _ (clean ts slots wg) h = tt
Step-IsScan _ _ (wait ts slots) h = tt

pub Reaches-IsScan : (calls : List Call) (p : Pool) → Reaches (start calls) p → IsScan p
Reaches-IsScan calls _ here = tt
Reaches-IsScan calls _ (next t u run last) = Step-IsScan t u last (Reaches-IsScan calls t run)

-- The steps that a goroutine has before it.
abbrev pub steps_of : Stage → ℕ
steps_of running = 3
steps_of written = 2
steps_of released = 1
steps_of finished = 0

abbrev task_steps : List Task → ℕ
task_steps [] = 0
task_steps (task s c ∷ ts) = steps_of s + task_steps ts

task_steps-append : (xs ys : List Task) → task_steps (xs ++ ys) ≡ task_steps xs + task_steps ys
task_steps-append [] ys = omega arith
task_steps-append (task s c ∷ xs) ys = omega (arith, task_steps-append xs ys)

-- A bound on the steps that a state has before it.
abbrev pub steps_left : Pool → ℕ
steps_left (pool rest tasks slots wg spawning) =
    6 * length rest + task_steps tasks + length tasks + 3
steps_left (pool rest tasks slots wg sending) =
    6 * length rest + task_steps tasks + length tasks + 2
steps_left (pool rest tasks slots wg (scanning k errors)) =
    task_steps tasks + (length tasks - k) + 2
steps_left (pool rest tasks slots wg waiting) = task_steps tasks + 1
steps_left (pool rest tasks slots wg (returned_errors errors)) = task_steps tasks
steps_left (pool rest tasks slots wg returned_results) = task_steps tasks

fewer_task_steps :
    (before after : List Task) (c : Call) (s t : Stage)
    → steps_of t < steps_of s
    → task_steps (before ++ (task t c ∷ after)) < task_steps (before ++ (task s c ∷ after))
fewer_task_steps before after c s t less = omega (
  arith,
  task_steps-append before (task t c ∷ after),
  task_steps-append before (task s c ∷ after),
)

fewer_steps :
    (before after : List Task) (c : Call) (s t : Stage) (rest : List Call) (sl w sl' w' : ℕ)
    (m : Main)
    → steps_of t < steps_of s
    → steps_left (pool rest (before ++ (task t c ∷ after)) sl w m)
      < steps_left (pool rest (before ++ (task s c ∷ after)) sl' w' m)
fewer_steps before after c s t rest sl w sl' w' spawning less = omega (
  arith,
  fewer_task_steps before after c s t less,
  length_same before after (task s c) (task t c),
)
fewer_steps before after c s t rest sl w sl' w' sending less = omega (
  arith,
  fewer_task_steps before after c s t less,
  length_same before after (task s c) (task t c),
)
fewer_steps before after c s t rest sl w sl' w' (scanning k errors) less = omega (
  arith,
  fewer_task_steps before after c s t less,
  length_same before after (task s c) (task t c),
)
fewer_steps before after c s t rest sl w sl' w' waiting less = omega (
  arith,
  fewer_task_steps before after c s t less,
  length_same before after (task s c) (task t c),
)
fewer_steps before after c s t rest sl w sl' w' (returned_errors errors) less = omega (
  arith,
  fewer_task_steps before after c s t less,
  length_same before after (task s c) (task t c),
)
fewer_steps before after c s t rest sl w sl' w' returned_results less = omega (
  arith,
  fewer_task_steps before after c s t less,
  length_same before after (task s c) (task t c),
)

-- Every step takes the state nearer to its end.
pub Step-steps_left : (p q : Pool) → Step p q → steps_left q < steps_left p
Step-steps_left _ _ (add c rest ts slots wg) = omega arith
Step-steps_left _ _ (spawn c rest ts slots wg free) =
    omega
      (arith, task_steps-append ts (task running c ∷ []), length-append ts (task running c ∷ []))
Step-steps_left _ _ (spawned_all ts slots wg) = omega arith
Step-steps_left _ _ (write before after c rest slots wg m) =
    fewer_steps before after c running written rest slots wg slots wg m (omega arith)
Step-steps_left _ _ (release before after c rest slots wg m) =
    fewer_steps before after c written released rest slots wg (suc slots) wg m (omega arith)
Step-steps_left _ _ (done before after c rest slots wg m) =
    fewer_steps before after c released finished rest slots wg slots (suc wg) m (omega arith)
Step-steps_left _ _ (scan before after t slots wg errors) =
    omega (arith, length-append before (t ∷ after))
Step-steps_left _ _ (report ts slots wg e errors) = omega arith
Step-steps_left _ _ (clean ts slots wg) = omega arith
Step-steps_left _ _ (wait ts slots) = omega arith

pub run_length : {s t : Pool} → Reaches s t → ℕ
run_length here = 0
run_length (next t u run last) = suc (run_length run)

run_length-steps_left :
    (s t : Pool) (run : Reaches s t) → run_length run + steps_left t ≤ steps_left s
unfolding run_length
run_length-steps_left s _ here = omega arith
run_length-steps_left s _ (next t u run last) =
    omega (arith, run_length-steps_left s t run, Step-steps_left t u last)

-- For n segments no run of the function and its goroutines has more than 6 n + 3 steps.
pub pool_terminates :
    (calls : List Call) (p : Pool) (run : Reaches (start calls) p)
    → run_length run ≤ 6 * length calls + 3
pool_terminates calls p run = omega (arith, run_length-steps_left (start calls) p run)
