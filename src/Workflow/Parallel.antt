-- ===== src/Workflow/Parallel.antt =====
-- Workflow::compileParallel of src/workflow.cpp: the threads that compile the levels. A schedule says
-- which thread takes the next step, and the exception, if any, that the call it is in ends with: a
-- clone of the engine, or the compilation of a rule. Rules are their addresses.
pub mod Claims
pub mod Errors
pub mod Once
pub mod Outcome
pub mod Ends
pub mod Order
pub mod Barrier
use fast_rules.Base.{
  ℕ, zero, suc, ◌+◌, List, [], ◌∷◌, Bool, true, false, Option, none, some, if◌then◌else◌, get_elem?,
  length, all, min, max, ltb, ◌||◌, ◌==◌, ℕ_eq,
}
use fast_rules.Base.Text.{Text}
use fast_rules.Rule.{Rule}
use fast_rules.Workflow.Compilation.{has_address, addresses, build_compilation_levels}

-- `looking` is before the test of `hasError`, `claiming` before `fetch_add`.
pub data Worker : Type 0 where
  starting looking claiming : Worker
  compiling : (rule : ℕ) → Worker
  stopped : Worker

-- `returned` and `threw` are the rules for which the call of `compile` that a thread makes for a rule of
-- its level has returned or thrown. Such a call compiles the children of its rule as well, which they
-- do not count.
pub record Crew : Type 0 where
  pub next_rule : ℕ
  pub has_error : Bool
  pub compile_exception : Option Text
  pub returned : List ℕ
  pub threw : List ℕ

-- The first exception is kept.
abbrev pub fail : Text → Crew → Crew
fail e s = record s {
  has_error = true;
  compile_exception = elim s.compile_exception [ none ↦ some e | some first ↦ some first ];
}

unfoldable pub act : List ℕ → Worker → Option Text → Crew → Crew × Worker
act level starting none s = (s, looking)
act level starting (some e) s = (fail e s, stopped)
act level looking answer s = (s, if s.has_error then stopped else claiming)
act level claiming answer s = (
  record s { next_rule = suc s.next_rule },
  elim (get_elem? level s.next_rule) [ none ↦ stopped | some rule ↦ compiling rule ],
)
act level (compiling rule) none s = (record s { returned = rule ∷ s.returned }, looking)
act level (compiling rule) (some e) s = (fail e (record s { threw = rule ∷ s.threw }), stopped)
act level stopped answer s = (s, stopped)

-- The thread at the index takes a step.
abbrev pub step_worker : List ℕ → ℕ → Option Text → Crew → List Worker → Crew × List Worker
step_worker level k answer s [] = (s, [])
step_worker level zero answer s (w ∷ ws) = let (s', w') = act level w answer s in (s', w' ∷ ws)
step_worker level (suc k) answer s (w ∷ ws) =
    let (s', ws') = step_worker level k answer s ws in (s', w ∷ ws')

abbrev pub Schedule : Type 0
Schedule = List (ℕ × Option Text)

unfoldable pub run_workers : List ℕ → Schedule → Crew → List Worker → Crew × List Worker
unfolding act
run_workers level [] s ws = (s, ws)
run_workers level ((k, answer) ∷ rest) s ws =
    let (s', ws') = step_worker level k answer s ws in run_workers level rest s' ws'

abbrev pub is_stopped : Worker → Bool
is_stopped stopped = true
is_stopped _ = false

abbrev pub start_workers : ℕ → List Worker
start_workers zero = []
start_workers (suc n) = starting ∷ start_workers n

-- `levelThreads`.
abbrev pub level_threads : ℕ → List ℕ → ℕ
level_threads threads level = min threads (max (length level) 1)

-- The loop over the levels. `none`: a schedule ends before all threads of its level have stopped,
-- which the program waits for.
unfoldable pub compile_levels : ℕ → List (List Rule) → List Schedule → Crew → Option Crew
unfolding run_workers
compile_levels threads [] schedules s = some s
compile_levels threads (level ∷ levels) [] s = if s.has_error then some s else none
compile_levels threads (level ∷ levels) (schedule ∷ schedules) s =
    let listed = addresses level in
    let (s', ws) =
      run_workers listed schedule (record s { next_rule = 0 })
        (start_workers (level_threads threads listed)) in
    let rest = compile_levels threads levels schedules s' in
    if s.has_error then some s else if all is_stopped ws then rest else none

-- What follows the loop: rethrow, the exception of the check, or the rest of the function. The check
-- reads the flag `isCompiled` of each rule of the workflow, here whether a thread's call for the rule
-- returned. In the source an earlier compilation, or that of a parent, can have set it too, and then
-- the check passes all the more.
pub data Verdict : Type 0 where
  rethrow : Text → Verdict
  not_all_compiled go_ahead : Verdict

unfoldable pub verdict : List Rule → Crew → Verdict
verdict rules s = elim s.compile_exception [
  | some e ↦ rethrow e
  | none ↦ if all (λ r. has_address r.self s.returned) rules then go_ahead else not_all_compiled
]

abbrev pub new_crew : Crew
new_crew = record {
  next_rule = 0;
  has_error = false;
  compile_exception = none;
  returned = [];
  threw = [];
}

-- `hardware` is `std::thread::hardware_concurrency()`.
unfoldable pub thread_count : ℕ → ℕ → ℕ
thread_count hardware num_threads =
    if num_threads == 0 then (if hardware == 0 then 4 else hardware) else num_threads

-- `sequential` hands the workflow to `compile`.
pub data Compilation : Type 0 where
  sequential : Compilation
  ran : Crew → Verdict → Compilation

unfoldable pub compile_parallel : ℕ → ℕ → List Rule → List Schedule → Option Compilation
unfolding build_compilation_levels compile_levels verdict thread_count
compile_parallel hardware num_threads rules schedules =
    let threads = thread_count hardware num_threads in
    if ltb (length rules) 10 || (threads == 1)
    then some sequential
    else elim (build_compilation_levels rules) [
      | none ↦ none
      | some levels ↦ elim (compile_levels threads levels schedules new_crew) [
        | none ↦ none
        | some s ↦ some (ran s (verdict rules s))
      ]
    ]
