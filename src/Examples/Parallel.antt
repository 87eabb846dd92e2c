-- ===== src/Examples/Parallel.antt =====
-- Workflows whose rules are compiled by levels, and by two threads.
use fast_rules.Base.{
  All, Has, here, there, ◌-◌, ℕ, zero, suc, ◌+◌, ◌≤◌, ◌≡◌, ◌≢◌, refl, List, [], ◌∷◌, true, false,
  ◌*◌, Option, none, some, length, all, tally, arith,
}
use fast_rules.Base.Int.{pos}
use fast_rules.Base.Text.{codes}
use fast_rules.Rule.{Rules, nil, cons, Rule}
use fast_rules.Versioning.{new_info}
use fast_rules.Workflow.Levels.{concat}
use fast_rules.Workflow.Levels.Lists.{Distinct}
use fast_rules.Workflow.Compilation.{addresses, build_compilation_levels, build_rounds}
use fast_rules.Workflow.Compilation.Round.{Unique}
use fast_rules.Workflow.Compilation.Cover.{build_compilation_levels_complete}
use fast_rules.Workflow.Compilation.After.{InOrder}
use fast_rules.Workflow.Compilation.Exact.{NoRepeats}
use fast_rules.Workflow.Compilation.Acyclic.{IsNested, build_compilation_levels-InOrder}
use fast_rules.Workflow.Parallel.{
  Crew, Schedule, not_all_compiled, go_ahead, ran, compile_parallel, new_crew, run_workers,
  start_workers, is_stopped,
}
use fast_rules.Workflow.Parallel.Outcome.{compile_parallel_compiles}
use fast_rules.Workflow.Parallel.Order.{IsTimely}
use fast_rules.Workflow.Parallel.Barrier.{compile_parallel_in_order}
use fast_rules.Workflow.Compilation.Barrier.{children}
use fast_rules.Workflow.Parallel.Ends.{count_moves, level_ends}

abbrev numbered : ℕ → Rules → Rule
numbered n kids = record { info = record (new_info n) { id = pos n }; child_rules = kids }

-- The rule 1 has the rule 2 as a child, and 2 has 3.
abbrev family : List Rule
family =
    numbered 1 (
      cons (record (new_info 2) { id = pos 2 }) (cons (record (new_info 3) { id = pos 3 }) nil nil)
        nil)
    ∷ numbered 2 (cons (record (new_info 3) { id = pos 3 }) nil nil)
    ∷ numbered 3 nil
    ∷ []

family-Unique : Unique family
family-Unique x = ground arith

family-Distinct : Distinct family
family-Distinct = ((λ e. cc, (λ e. cc, tt)), ((λ e. cc, tt), (tt, tt)))

build_compilation_levels_complete_example :
    (levels : List (List Rule)) × (build_compilation_levels family ≡ some levels)
    × ((x : ℕ) → tally x (addresses (concat levels)) ≡ tally x (addresses family))
build_compilation_levels_complete_example = build_compilation_levels_complete family family-Unique

family-NoRepeats : NoRepeats family
family-NoRepeats r here x = ground arith
family-NoRepeats r (there here) x = ground arith
family-NoRepeats r (there (there here)) x = ground arith
family-NoRepeats r (there (there (there m))) x = elim m [ ]

-- The later a rule is, the lower.
abbrev lateness : ℕ → ℕ
lateness x = 10 - x

family-IsNested : IsNested lateness family
family-IsNested r here c child listed = ground (arith, child, listed)
family-IsNested r (there here) c child listed = ground (arith, child, listed)
family-IsNested r (there (there here)) c child listed = absurd (ground (arith, child))
family-IsNested r (there (there (there m))) c child listed = elim m [ ]

build_compilation_levels-InOrder_example :
    (levels : List (List Rule)) × (build_compilation_levels family ≡ some levels)
    × InOrder family [] levels
build_compilation_levels-InOrder_example =
    build_compilation_levels-InOrder lateness family family-Unique family-Distinct family-NoRepeats
      family-IsNested

abbrev level_of : Option (List (List Rule)) → List (List ℕ)
level_of none = []
level_of (some []) = []
level_of (some (l ∷ ls)) = addresses l ∷ level_of (some ls)

family_levels : level_of (build_compilation_levels family) ≡ (3 ∷ []) ∷ (2 ∷ []) ∷ (1 ∷ []) ∷ []
unfolding build_compilation_levels
family_levels = refl

abbrev up_to : ℕ → List Rule
up_to zero = []
up_to (suc n) = numbered n nil ∷ up_to n

-- Rule 9 has rule 8 as a child.
abbrev ten : List Rule
ten = numbered 9 (cons (record (new_info 8) { id = pos 8 }) nil nil) ∷ up_to 9

abbrev in_turn : ℕ → Schedule
in_turn zero = []
in_turn (suc n) = (0, none) ∷ (1, none) ∷ in_turn n

ten-Unique : Unique ten
ten-Unique x = ground arith

up_to-leaf : (n : ℕ) (r : Rule) → Has r (up_to n) → children r ≡ []
up_to-leaf zero r m = elim m [ ]
up_to-leaf (suc n) r here = refl
up_to-leaf (suc n) r (there m) = up_to-leaf n r m

up_to-below : (m n : ℕ) → n ≤ m → All (λ q. pos m ≢ q.id) (up_to n)
up_to-below m zero l = tt
up_to-below m (suc n) l = (λ e. ground (arith, e), up_to-below m n (omega arith))

up_to-Distinct : (n : ℕ) → Distinct (up_to n)
up_to-Distinct zero = tt
up_to-Distinct (suc n) = (up_to-below n n (omega arith), up_to-Distinct n)

ten-Distinct : Distinct ten
ten-Distinct = (up_to-below 9 9 (omega arith), up_to-Distinct 9)

ten-NoRepeats : NoRepeats ten
ten-NoRepeats r here x = ground arith
ten-NoRepeats r (there m) x = rw (up_to-leaf 9 r m) (omega arith)

abbrev number : ℕ → ℕ
number x = x

ten-IsNested : IsNested number ten
ten-IsNested r here c child listed = ground (arith, child)
ten-IsNested r (there m) c child listed = absurd (ground (arith, rw (up_to-leaf 9 r m) at child))

-- The crew after both threads have stopped.
abbrev finished : Crew
finished = record {
  next_rule = 2;
  has_error = false;
  compile_exception = none;
  returned = 9 ∷ 0 ∷ 1 ∷ 2 ∷ 3 ∷ 4 ∷ 5 ∷ 6 ∷ 7 ∷ 8 ∷ [];
  threw = [];
}

two_threads_compile :
    compile_parallel 8 2 ten (in_turn 30 ∷ in_turn 10 ∷ []) ≡ some (ran finished go_ahead)
unfolding compile_parallel
two_threads_compile = refl

compile_parallel_compiles_example :
    (go_ahead ≢ not_all_compiled)
    × (go_ahead ≡ go_ahead → (x : ℕ) → tally x finished.returned ≡ tally x (addresses ten))
compile_parallel_compiles_example =
    compile_parallel_compiles 8 2 ten (in_turn 30 ∷ in_turn 10 ∷ []) finished go_ahead ten-Unique
      two_threads_compile

compile_parallel_in_order_example : IsTimely ten finished.returned
compile_parallel_in_order_example =
    compile_parallel_in_order 8 2 number ten (in_turn 30 ∷ in_turn 10 ∷ []) finished go_ahead
      ten-Unique ten-Distinct ten-NoRepeats ten-IsNested two_threads_compile

-- The compilation of the rule 9 throws; the other thread then stops at the test.
abbrev failing : Schedule
failing =
    (0, none) ∷ (0, none) ∷ (0, none) ∷ (1, none) ∷ (0, some (codes "syntax")) ∷ (1, none) ∷ []

failing_stops :
    all is_stopped (run_workers (addresses ten) failing new_crew (start_workers 2)).1 ≡ true
unfolding run_workers
failing_stops = refl

level_ends_example :
    (count_moves (addresses ten) failing new_crew (start_workers 2)
      ≤ 4 * length (addresses ten) + 4 * 2)
    × (let (s', ws) = run_workers (addresses ten) failing new_crew (start_workers 2) in
        (rest : Schedule) × (all is_stopped (run_workers (addresses ten) rest s' ws).1 ≡ true))
level_ends_example = level_ends (addresses ten) failing new_crew 2

-- A child that is listed twice is counted twice, and its parent is left over without any cycle.
abbrev doubled : List Rule
doubled =
    numbered 1 (
      cons (record (new_info 2) { id = pos 2 }) nil
        (cons (record (new_info 2) { id = pos 2 }) nil nil))
    ∷ numbered 2 nil
    ∷ []

doubled_leftover : build_rounds doubled ≡ some ((numbered 2 nil ∷ []) ∷ [], 1 ∷ [])
unfolding build_rounds
doubled_leftover = refl
