-- ===== src/Workflow/Parallel/Barrier.antt =====
-- compileParallel and the order of the rules it compiles.
use fast_rules.Base.{
  ℕ, ◌≡◌, refl, subst, inl, inr, List, [], ◌||◌, Option, none, some, length, Bool-cases, arith, ltb,
  ◌==◌, ℕ_eq,
}
use fast_rules.Rule.{Rule}
use fast_rules.Workflow.Levels.Lists.{Distinct}
use fast_rules.Workflow.Compilation.Round.{Unique}
use fast_rules.Workflow.Compilation.Exact.{NoRepeats}
use fast_rules.Workflow.Compilation.Acyclic.{IsNested, build_compilation_levels-InOrder}
use fast_rules.Workflow.Parallel.{
  Crew, Schedule, compile_levels, Verdict, verdict, new_crew, thread_count, Compilation, sequential,
  ran, compile_parallel,
}
use fast_rules.Workflow.Parallel.Outcome.{thread_count-positive}
use fast_rules.Workflow.Parallel.Order.{IsTimely, EndsTimely, compile_levels-EndsTimely}

abbrev RunsTimely : List Rule → Option Compilation → Type 0
RunsTimely rules none = Unit {0}
RunsTimely rules (some sequential) = Unit {0}
RunsTimely rules (some (ran s v)) = IsTimely rules s.returned

run-RunsTimely :
    (rules : List Rule) (unique : Unique rules) (run : Option Crew)
    → EndsTimely rules unique run
    → RunsTimely rules (elim run [ none ↦ none | some s ↦ some (ran s (verdict rules s)) ])
run-RunsTimely rules unique none h = tt
run-RunsTimely rules unique (some s) h = h

compile_parallel-RunsTimely :
    (hardware num_threads : ℕ) (rank : ℕ → ℕ) (rules : List Rule) (schedules : List Schedule)
    → Unique rules
    → Distinct rules
    → NoRepeats rules
    → IsNested rank rules
    → RunsTimely rules (compile_parallel hardware num_threads rules schedules)
unfolding compile_parallel
compile_parallel-RunsTimely hardware num_threads rank rules schedules u d single nested =
    let threads = thread_count hardware num_threads in
    let (levels, e, in_order) = build_compilation_levels-InOrder rank rules u d single nested in
    elim (Bool-cases (ltb (length rules) 10 || (threads == 1))) [
      | inl t ↦ rw (compile_parallel, t) tt
      | inr f ↦
          rw (compile_parallel, f, e)
            (run-RunsTimely rules u (compile_levels threads levels schedules new_crew) (
              compile_levels-EndsTimely rules u threads levels schedules new_crew []
                (thread_count-positive hardware num_threads)
                (record { no_failure = λ h. (refl, refl); raised = λ h. absurd (ground arith) })
                in_order tt (λ h x n. absurd (ground arith))))
    ]

-- For rules with different ids at different addresses, none of which has a child twice, and whose
-- listed children have no cycle: whatever the schedules of the threads of compileParallel, and whether
-- or not a compilation throws, each rule that they compile is compiled after all of its children that
-- are listed in the workflow too.
pub compile_parallel_in_order :
    (hardware num_threads : ℕ) (rank : ℕ → ℕ) (rules : List Rule) (schedules : List Schedule)
    (s : Crew) (v : Verdict)
    → Unique rules
    → Distinct rules
    → NoRepeats rules
    → IsNested rank rules
    → compile_parallel hardware num_threads rules schedules ≡ some (ran s v)
    → IsTimely rules s.returned
compile_parallel_in_order hardware num_threads rank rules schedules s v u d single nested e =
    subst (RunsTimely rules) e
      (compile_parallel-RunsTimely hardware num_threads rank rules schedules u d single nested)
