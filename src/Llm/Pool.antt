-- ===== src/Llm/Pool.antt =====
-- internal/llm/ollama_tag_extractor.go: `ExtractMultiTags`, as the steps of its goroutines.
pub mod Counts
pub mod Invariant
pub mod Termination
pub mod Progress
pub mod Lost
pub mod Tests
use route_planner.Prelude.{ℕ, suc, ◌+◌, ◌<◌, ◌≡◌, ◌≢◌, String, List, [], ◌∷◌, ◌++◌, length}
use route_planner.Prelude.Text.{Text}
use route_planner.Errors.{GoError}

-- What one `ExtractTags` ends with.
pub data Extraction : Type 0 where
  tagged : List String → Extraction
  failed : GoError → Extraction

-- A segment with the outcome that its request will have.
pub record Call : Type 0 where
  pub text : Text
  pub outcome : Extraction

-- Where a goroutine stands: the request runs, its cell of `results` or `errs` is written, the
-- semaphore's slot is released, `wg.Done` has been called.
pub data Stage : Type 0 where
  running : Stage
  written : Stage
  released : Stage
  finished : Stage

pub data Task : Type 0 where
  task : Stage → Call → Task

-- Where the function itself stands. `sending` is past `wg.Add(1)` and at the send on `sem`. `scanning` has read that many cells of `errs` and collected the
-- errors with their indices, from which the messages are printed.
pub data Main : Type 0 where
  spawning : Main
  sending : Main
  scanning : ℕ → List (ℕ × GoError) → Main
  waiting : Main
  returned_errors : List (ℕ × GoError) → Main
  returned_results : Main

-- The segments still to be started, the goroutines in the order of their indices, the slots taken of
-- `sem` and the counter of `wg`.
pub data Pool : Type 0 where
  pool : (rest : List Call) (tasks : List Task) (slots wg : ℕ) (main : Main) → Pool

abbrev pub max_concurrent_requests : ℕ
max_concurrent_requests = 10

abbrev pub start : List Call → Pool
start calls = pool calls [] 0 0 spawning

-- A cell of `results`: empty until the goroutine writes it, and for good when its request fails.
abbrev pub tags_of : Extraction → List String
tags_of (tagged tags) = tags
tags_of (failed e) = []

abbrev pub errors_in : ℕ → Extraction → List (ℕ × GoError)
errors_in k (tagged tags) = []
errors_in k (failed e) = (k, e) ∷ []

-- What a read of the goroutine's cell of `errs` adds.
abbrev pub read_error : ℕ → Task → List (ℕ × GoError)
read_error k (task running c) = []
read_error k (task written c) = errors_in k c.outcome
read_error k (task released c) = errors_in k c.outcome
read_error k (task finished c) = errors_in k c.outcome

pub data Step : Pool → Pool → Type 0 where
  -- `wg.Add(1)`
  add :
      (c : Call) (rest : List Call) (tasks : List Task) (slots wg : ℕ)
      → Step
          (pool (c ∷ rest) tasks slots wg spawning)
          (pool (c ∷ rest) tasks slots (suc wg) sending)
  -- The send on `sem`, which blocks while ten slots are taken, and `go`.
  spawn :
      (c : Call) (rest : List Call) (tasks : List Task) (slots wg : ℕ)
      → slots < max_concurrent_requests
      → Step
          (pool (c ∷ rest) tasks slots wg sending)
          (pool rest (tasks ++ (task running c ∷ [])) (suc slots) wg spawning)
  spawned_all :
      (tasks : List Task) (slots wg : ℕ)
      → Step (pool [] tasks slots wg spawning) (pool [] tasks slots wg (scanning 0 []))
  -- `errs[index] = err` or `results[index] = tags`
  write :
      (before after : List Task) (c : Call) (rest : List Call) (slots wg : ℕ) (main : Main)
      → Step
          (pool rest (before ++ (task running c ∷ after)) slots wg main)
          (pool rest (before ++ (task written c ∷ after)) slots wg main)
  -- `<-sem`, the deferred call that runs first
  release :
      (before after : List Task) (c : Call) (rest : List Call) (slots wg : ℕ) (main : Main)
      → Step
          (pool rest (before ++ (task written c ∷ after)) (suc slots) wg main)
          (pool rest (before ++ (task released c ∷ after)) slots wg main)
  -- `wg.Done()`
  done :
      (before after : List Task) (c : Call) (rest : List Call) (slots wg : ℕ) (main : Main)
      → Step
          (pool rest (before ++ (task released c ∷ after)) slots (suc wg) main)
          (pool rest (before ++ (task finished c ∷ after)) slots wg main)
  -- One turn of `for i, err := range errs`
  scan :
      (before after : List Task) (t : Task) (slots wg : ℕ) (errors : List (ℕ × GoError))
      → Step (pool [] (before ++ (t ∷ after)) slots wg (scanning (length before) errors)) (
          pool []
            (before ++ (t ∷ after))
            slots
            wg
            (scanning (suc (length before)) (errors ++ read_error (length before) t)))
  -- `if len(errMsgs) > 0`: the function returns without waiting.
  report :
      (tasks : List Task) (slots wg : ℕ) (e : ℕ × GoError) (errors : List (ℕ × GoError))
      → Step
          (pool [] tasks slots wg (scanning (length tasks) (e ∷ errors)))
          (pool [] tasks slots wg (returned_errors (e ∷ errors)))
  clean :
      (tasks : List Task) (slots wg : ℕ)
      → Step (pool [] tasks slots wg (scanning (length tasks) [])) (pool [] tasks slots wg waiting)
  -- `wg.Wait()` returns once the counter is 0.
  wait :
      (tasks : List Task) (slots : ℕ)
      → Step (pool [] tasks slots 0 waiting) (pool [] tasks slots 0 returned_results)

pub data Reaches (s : Pool) : Pool → Type 0 where
  here : Reaches s s
  next : (t u : Pool) → Reaches s t → Step t u → Reaches s u

-- The function's `results`.
pub results : List Task → List (List String)
results [] = []
results (task running c ∷ ts) = [] ∷ results ts
results (task written c ∷ ts) = tags_of c.outcome ∷ results ts
results (task released c ∷ ts) = tags_of c.outcome ∷ results ts
results (task finished c ∷ ts) = tags_of c.outcome ∷ results ts
