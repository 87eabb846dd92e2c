-- ===== src/Workflow/Parallel/Outcome.antt =====
-- What compileParallel comes to, whatever the schedules of its threads.
use fast_rules.Base.{
  ℕ, ◌<◌, ◌≡◌, ◌≢◌, refl, sym, subst, ◌∙◌, inl, inr, List, [], ◌∷◌, Bool, true, false, Option, none,
  some, length, all, Has, here, there, tally, Bool-cases, Option-cases, arith, ltb, ◌||◌, ◌==◌,
  ℕ_eq,
}
use fast_rules.Rule.{Rule}
use fast_rules.Workflow.Levels.{concat}
use fast_rules.Workflow.Compilation.{has_address, addresses}
use fast_rules.Workflow.Compilation.Round.{Unique, absent-tally, present-tally, Has-has_address}
use fast_rules.Workflow.Compilation.Cover.{build_compilation_levels_complete}
use fast_rules.Workflow.Parallel.{
  Crew, Schedule, compile_levels, Verdict, not_all_compiled, go_ahead, verdict, new_crew,
  thread_count, Compilation, sequential, ran, compile_parallel,
}
use fast_rules.Workflow.Parallel.Errors.{IsAware}
use fast_rules.Workflow.Parallel.Once.{Compiles, compile_levels-Compiles}

pub thread_count-positive : (hardware num_threads : ℕ) → 0 < thread_count hardware num_threads
unfolding thread_count
thread_count-positive hardware num_threads = ground arith

all-Has {ℓ} :
    {A : Type ℓ} (p : A → Bool) (xs : List A) → ((x : A) → Has x xs → p x ≡ true) → all p xs ≡ true
all-Has p [] h = refl
all-Has p (x ∷ xs) h = ground (arith, h x here, all-Has p xs (λ y m. h y (there m)))

-- The check that follows the loop does not fail, and where it passes one call for every rule has
-- returned.
abbrev Sound : List Rule → Crew → Verdict → Type 0
Sound rules s v =
    (v ≢ not_all_compiled)
    × (v ≡ go_ahead → (x : ℕ) → tally x s.returned ≡ tally x (addresses rules))

verdict-Sound :
    (rules : List Rule) (s : Crew)
    → IsAware s
    → (s.has_error ≡ false → (x : ℕ) → tally x s.returned ≡ tally x (addresses rules))
    → Sound rules s (verdict rules s)
unfolding verdict
verdict-Sound rules s aware h = elim (Option-cases s.compile_exception) [
  | inr (e, r) ↦ rw (verdict, r) (λ f. ground arith, λ f. absurd (ground arith))
  | inl n ↦ elim (Bool-cases s.has_error) [
    | inl t ↦ let (e, r) = aware.raised t in absurd (ground (arith, sym n ∙ r))
    | inr f ↦
        let count = h f in
        let checked =
          all-Has (λ r. has_address r.self s.returned) rules
            λ r m. elim (Bool-cases (has_address r.self s.returned)) [
              | inl t ↦ t
              | inr g ↦ absurd (
                  omega (
                    arith,
                    absent-tally r.self s.returned g,
                    count r.self,
                    present-tally r.self (addresses rules) (Has-has_address m),
                  ))
            ] in
        rw (verdict, n, checked) (λ f. ground arith, λ f. count)
  ]
]

abbrev SoundRun : List Rule → Option Compilation → Type 0
SoundRun rules none = Unit {0}
SoundRun rules (some sequential) = Unit {0}
SoundRun rules (some (ran s v)) = Sound rules s v

run-SoundRun :
    (rules : List Rule) (levels : List (List Rule)) (run : Option Crew)
    → ((x : ℕ) → tally x (addresses (concat levels)) ≡ tally x (addresses rules))
    → Compiles levels new_crew run
    → SoundRun rules (elim run [ none ↦ none | some s ↦ some (ran s (verdict rules s)) ])
run-SoundRun rules levels none same c = tt
run-SoundRun rules levels (some s) same (aware, c) =
    verdict-Sound rules s aware (λ f x. omega (arith, (c f).1 x, same x))

compile_parallel-SoundRun :
    (hardware num_threads : ℕ) (rules : List Rule) (schedules : List Schedule)
    → Unique rules
    → SoundRun rules (compile_parallel hardware num_threads rules schedules)
unfolding compile_parallel
compile_parallel-SoundRun hardware num_threads rules schedules u =
    let threads = thread_count hardware num_threads in
    let (levels, e, same) = build_compilation_levels_complete rules u in
    elim (Bool-cases (ltb (length rules) 10 || (threads == 1))) [
      | inl t ↦ rw (compile_parallel, t) tt
      | inr f ↦
          rw (compile_parallel, f, e)
            (run-SoundRun rules levels (compile_levels threads levels schedules new_crew) same (
              compile_levels-Compiles threads levels schedules new_crew
                (thread_count-positive hardware num_threads)
                (record { no_failure = λ h. (refl, refl); raised = λ h. absurd (ground arith) })))
    ]

-- For rules at different addresses, where compileParallel compiles with threads, whatever their
-- schedules, it does not throw that not all rules were compiled, and if it goes ahead, the calls of
-- Rule::compile that its threads made and that returned are one for each rule of the workflow, and
-- none for any other rule. The calls for children that such a call makes in turn are not counted.
pub compile_parallel_compiles :
    (hardware num_threads : ℕ) (rules : List Rule) (schedules : List Schedule) (s : Crew)
    (v : Verdict)
    → Unique rules
    → compile_parallel hardware num_threads rules schedules ≡ some (ran s v)
    → (v ≢ not_all_compiled)
      × (v ≡ go_ahead → (x : ℕ) → tally x s.returned ≡ tally x (addresses rules))
compile_parallel_compiles hardware num_threads rules schedules s v u e =
    subst (SoundRun rules) e (compile_parallel-SoundRun hardware num_threads rules schedules u)
