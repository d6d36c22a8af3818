-- ===== src/Llm/Pool/Counts.antt =====
-- What the semaphore and the wait group of `ExtractMultiTags` count.
use route_planner.Prelude.{ℕ, suc, ◌+◌, ◌≤◌, ◌≡◌, refl, ap, List, [], ◌∷◌, ◌++◌, arith, length}
use route_planner.Llm.Pool.{Call, running, written, released, finished, Task, task}

-- The slots that the goroutines hold.
abbrev pub holding : List Task → ℕ
holding [] = 0
holding (task running c ∷ ts) = suc (holding ts)
holding (task written c ∷ ts) = suc (holding ts)
holding (task released c ∷ ts) = holding ts
holding (task finished c ∷ ts) = holding ts

-- The goroutines that `wg` counts.
abbrev pub unfinished : List Task → ℕ
unfinished [] = 0
unfinished (task running c ∷ ts) = suc (unfinished ts)
unfinished (task written c ∷ ts) = suc (unfinished ts)
unfinished (task released c ∷ ts) = suc (unfinished ts)
unfinished (task finished c ∷ ts) = unfinished ts

abbrev pub calls_of : List Task → List Call
calls_of [] = []
calls_of (task s c ∷ ts) = c ∷ calls_of ts

pub holding-append : (xs ys : List Task) → holding (xs ++ ys) ≡ holding xs + holding ys
holding-append [] ys = omega arith
holding-append (task running c ∷ xs) ys = omega (arith, holding-append xs ys)
holding-append (task written c ∷ xs) ys = omega (arith, holding-append xs ys)
holding-append (task released c ∷ xs) ys = holding-append xs ys
holding-append (task finished c ∷ xs) ys = holding-append xs ys

pub unfinished-append : (xs ys : List Task) → unfinished (xs ++ ys) ≡ unfinished xs + unfinished ys
unfinished-append [] ys = omega arith
unfinished-append (task running c ∷ xs) ys = omega (arith, unfinished-append xs ys)
unfinished-append (task written c ∷ xs) ys = omega (arith, unfinished-append xs ys)
unfinished-append (task released c ∷ xs) ys = omega (arith, unfinished-append xs ys)
unfinished-append (task finished c ∷ xs) ys = unfinished-append xs ys

pub calls_of-append : (xs ys : List Task) → calls_of (xs ++ ys) ≡ calls_of xs ++ calls_of ys
calls_of-append [] ys = refl
calls_of-append (task s c ∷ xs) ys = ap (λ cs. c ∷ cs) (calls_of-append xs ys)

pub length-calls_of : (ts : List Task) → length (calls_of ts) ≡ length ts
length-calls_of [] = refl
length-calls_of (task s c ∷ ts) = ap suc (length-calls_of ts)

pub holding-le-unfinished : (ts : List Task) → holding ts ≤ unfinished ts
holding-le-unfinished [] = omega arith
holding-le-unfinished (task running c ∷ ts) = omega (arith, holding-le-unfinished ts)
holding-le-unfinished (task written c ∷ ts) = omega (arith, holding-le-unfinished ts)
holding-le-unfinished (task released c ∷ ts) = omega (arith, holding-le-unfinished ts)
holding-le-unfinished (task finished c ∷ ts) = holding-le-unfinished ts
