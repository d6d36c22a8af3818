-- ===== src/Llm/Pool/Invariant.antt =====
-- The invariant of the goroutines of `ExtractMultiTags`.
use route_planner.Prelude.{
  ℕ, suc, ◌+◌, ◌≤◌, ◌≡◌, refl, ap, ◌≢◌, List, [], ◌∷◌, ◌++◌, map, arith, sym, ◌∙◌,
}
use mathlib.Core.List.{append_assoc, append-nil}
use route_planner.Prelude.{length, All}
use route_planner.Errors.{GoError}
use route_planner.Llm.Pool.Counts.{
  holding, unfinished, calls_of, holding-append, unfinished-append, calls_of-append,
  length-calls_of,
}
use route_planner.Llm.Pool.{
  Extraction, tagged, failed, Call, Stage, running, written, released, finished, Task, task, Main,
  spawning, sending, scanning, waiting, returned_errors, returned_results, Pool, pool,
  max_concurrent_requests, start, tags_of, errors_in, read_error, Step, add, spawn, spawned_all,
  write, release, done, scan, report, clean, wait, Reaches, here, next, results,
}

-- The error is that of the segment at this index.
abbrev pub IsFailure : List Call → ℕ × GoError → Type 0
IsFailure calls (k, e) =
    (before : List Call) × (c : Call) × (after : List Call) × (calls ≡ before ++ (c ∷ after))
    × (length before ≡ k)
    × (c.outcome ≡ failed e)

-- The calls of `wg.Add(1)` whose goroutine has not been started.
abbrev pub ahead : Main → ℕ
ahead sending = 1
ahead m = 0

abbrev pub IsMain : List Call → List Call → ℕ → Main → Type 0
IsMain calls rest wg spawning = Unit
IsMain calls rest wg sending = rest ≢ []
IsMain calls rest wg (scanning k errors) = (rest ≡ []) × All (IsFailure calls) errors
IsMain calls rest wg waiting = rest ≡ []
IsMain calls rest wg (returned_errors errors) = (errors ≢ []) × All (IsFailure calls) errors
IsMain calls rest wg returned_results = (rest ≡ []) × (wg ≡ 0)

abbrev pub IsPool : List Call → Pool → Type 0
IsPool calls (pool rest tasks slots wg main) =
    (slots ≡ holding tasks)
    × (slots ≤ max_concurrent_requests)
    × (wg ≡ unfinished tasks + ahead main)
    × (calls_of tasks ++ rest ≡ calls)
    × IsMain calls rest wg main

-- A goroutine that changes its stage stays the goroutine of its call.
same_calls :
    (before after : List Task) (s t : Stage) (c : Call) (rest calls : List Call)
    → calls_of (before ++ (task s c ∷ after)) ++ rest ≡ calls
    → calls_of (before ++ (task t c ∷ after)) ++ rest ≡ calls
same_calls before after s t c rest calls h =
    cc (calls_of-append before (task s c ∷ after), calls_of-append before (task t c ∷ after), h)

done_main :
    (calls rest : List Call) (wg : ℕ) (m : Main)
    → IsMain calls rest (suc wg) m
    → IsMain calls rest wg m
done_main calls rest wg spawning h = tt
done_main calls rest wg sending h = h
done_main calls rest wg (scanning k errors) h = h
done_main calls rest wg waiting h = h
done_main calls rest wg (returned_errors errors) h = h
done_main calls rest wg returned_results (none_left, zero_left) = (none_left, omega arith)

All-append {ℓ} :
    {A : Type ℓ} (P : A → Type 0) (xs ys : List A) → All P xs → All P ys → All P (xs ++ ys)
All-append P [] ys h k = k
All-append P (x ∷ xs) ys (a, h) k = (a, All-append P xs ys h k)

errors_in-IsFailure :
    (calls before after : List Call) (k : ℕ) (c : Call)
    → calls ≡ before ++ (c ∷ after)
    → length before ≡ k
    → (o : Extraction) → c.outcome ≡ o
    → All (IsFailure calls) (errors_in k o)
errors_in-IsFailure calls before after k c place index (tagged tags) ends = tt
errors_in-IsFailure calls before after k c place index (failed e) ends =
    ((before, c, after, place, index, ends), tt)

-- What a turn of the scan adds is the failure of the segment at that index.
read_error-IsFailure :
    (calls before after : List Call) (k : ℕ) (s : Stage) (c : Call)
    → calls ≡ before ++ (c ∷ after)
    → length before ≡ k
    → All (IsFailure calls) (read_error k (task s c))
read_error-IsFailure calls before after k running c place index = tt
read_error-IsFailure calls before after k written c place index =
    errors_in-IsFailure calls before after k c place index c.outcome refl
read_error-IsFailure calls before after k released c place index =
    errors_in-IsFailure calls before after k c place index c.outcome refl
read_error-IsFailure calls before after k finished c place index =
    errors_in-IsFailure calls before after k c place index c.outcome refl

-- Every step keeps the invariant.
pub step-IsPool : (calls : List Call) (p q : Pool) → Step p q → IsPool calls p → IsPool calls q
step-IsPool calls _ _ (add c rest ts slots wg) (held, most, counted, same, m) =
    (held, most, omega arith, same, λ e. cc)
step-IsPool calls _ _ (spawn c rest ts slots wg free) (held, most, counted, same, m) = (
  omega (arith, holding-append ts (task running c ∷ []), held),
  omega arith,
  omega (arith, unfinished-append ts (task running c ∷ []), counted),
  (rw (calls_of-append ts (task running c ∷ [])) (append_assoc (calls_of ts) (c ∷ []) rest ∙ same)),
  tt,
)
step-IsPool calls _ _ (spawned_all ts slots wg) (held, most, counted, same, m) =
    (held, most, omega arith, same, (refl, tt))
step-IsPool calls _ _ (write before after c rest slots wg m₁) (held, most, counted, same, m) = (
  omega (
    arith,
    holding-append before (task running c ∷ after),
    holding-append before (task written c ∷ after),
    held,
  ),
  omega arith,
  omega (
    arith,
    unfinished-append before (task running c ∷ after),
    unfinished-append before (task written c ∷ after),
    counted,
  ),
  same_calls before after running written c rest calls same,
  m,
)
step-IsPool calls _ _ (release before after c rest slots wg m₁) (held, most, counted, same, m) = (
  omega (
    arith,
    holding-append before (task written c ∷ after),
    holding-append before (task released c ∷ after),
    held,
  ),
  omega arith,
  omega (
    arith,
    unfinished-append before (task written c ∷ after),
    unfinished-append before (task released c ∷ after),
    counted,
  ),
  same_calls before after written released c rest calls same,
  m,
)
step-IsPool calls _ _ (done before after c rest slots wg m₁) (held, most, counted, same, m) = (
  omega (
    arith,
    holding-append before (task released c ∷ after),
    holding-append before (task finished c ∷ after),
    held,
  ),
  omega arith,
  omega (
    arith,
    unfinished-append before (task released c ∷ after),
    unfinished-append before (task finished c ∷ after),
    counted,
  ),
  same_calls before after released finished c rest calls same,
  done_main calls rest wg m₁ m,
)
step-IsPool calls _ _ (scan before after (task s c) slots wg errors)
      (held, most, counted, same, (none_left, real)) =
    (
      held,
      most,
      counted,
      same,
      (
        none_left,
        All-append (IsFailure calls) errors _ real (
            read_error-IsFailure calls (calls_of before) (calls_of after) (length before) s c
              (sym same ∙ append-nil _ ∙ calls_of-append before (task s c ∷ after))
              (length-calls_of before)),
      ),
    )
step-IsPool calls _ _ (report ts slots wg e errors) (held, most, counted, same, (none_left, real)) =
    (held, most, counted, same, ((λ h. cc), real))
step-IsPool calls _ _ (clean ts slots wg) (held, most, counted, same, (none_left, real)) =
    (held, most, counted, same, none_left)
step-IsPool calls _ _ (wait ts slots) (held, most, counted, same, none_left) =
    (held, most, counted, same, (none_left, refl))

pub Reaches-IsPool : (calls : List Call) (p : Pool) → Reaches (start calls) p → IsPool calls p
Reaches-IsPool calls _ here = (omega arith, omega arith, omega arith, refl, tt)
Reaches-IsPool calls _ (next t u run last) = step-IsPool calls t u last (Reaches-IsPool calls t run)

all_written :
    (ts : List Task) → unfinished ts ≡ 0 → results ts ≡ map (λ c. tags_of c.outcome) (calls_of ts)
unfolding results
all_written [] h = refl
all_written (task running c ∷ ts) h = absurd (omega arith)
all_written (task written c ∷ ts) h = absurd (omega arith)
all_written (task released c ∷ ts) h = absurd (omega arith)
all_written (task finished c ∷ ts) h = ap (λ rs. tags_of c.outcome ∷ rs) (all_written ts h)

-- At no point of a run are more than ten requests between the taking and the giving back of a slot
-- of the semaphore, and the counter of the wait group is the number of goroutines that have not
-- called `Done`, and one more while the function is between `wg.Add(1)` and the start of a goroutine.
pub pool_bounded :
    (calls rest : List Call) (tasks : List Task) (slots wg : ℕ) (main : Main)
    → Reaches (start calls) (pool rest tasks slots wg main)
    → (holding tasks ≤ 10) × (wg ≡ unfinished tasks + ahead main)
pool_bounded calls rest tasks slots wg main run =
    let (held, most, counted, same, m) = Reaches-IsPool calls _ run in (omega arith, counted)

-- When the function returns without an error, every goroutine has ended, and the results are those of
-- the segments in their order, with nothing for a segment whose request failed.
pub pool_results :
    (calls rest : List Call) (tasks : List Task) (slots wg : ℕ)
    → Reaches (start calls) (pool rest tasks slots wg returned_results)
    → (unfinished tasks ≡ 0) × (results tasks ≡ map (λ c. tags_of c.outcome) calls)
pool_results calls rest tasks slots wg run =
    let (held, most, counted, same, (none_left, zero_left)) = Reaches-IsPool calls _ run in
    let ended : unfinished tasks ≡ 0 = omega arith in
    (
      ended,
      all_written tasks ended
          ∙ ap (map (λ c. tags_of c.outcome))
              (sym (append-nil _) ∙ ap (λ r. calls_of tasks ++ r) (sym none_left) ∙ same),
    )

-- When the function returns errors, there is one at least, and each is the failure of the request for
-- the segment at the index that is printed with it.
pub pool_errors :
    (calls rest : List Call) (tasks : List Task) (slots wg : ℕ) (errors : List (ℕ × GoError))
    → Reaches (start calls) (pool rest tasks slots wg (returned_errors errors))
    → (errors ≢ []) × All (IsFailure calls) errors
pool_errors calls rest tasks slots wg errors run = (Reaches-IsPool calls _ run).4
