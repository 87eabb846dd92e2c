-- ===== src/Workflow/Parallel/Once.antt =====
-- A level, and the loop over the levels: which rules the threads compile.
use fast_rules.Base.{
  ℕ, zero, suc, ◌+◌, ◌≤◌, ◌<◌, ◌≡◌, refl, ap, ◌∙◌, inl, inr, List, [], ◌∷◌, Bool, true, false,
  Option, none, some, if◌then◌else◌, take, length, all, All, tally, tally-append, Bool-cases,
  &&-eq-true, arith, ℕ_eq,
}
use fast_rules.Base.Text.{Text}
use fast_rules.Rule.{Rule}
use fast_rules.Workflow.Levels.{concat}
use fast_rules.Workflow.Compilation.{addresses}
use fast_rules.Workflow.Compilation.Round.{addresses-append}
use fast_rules.Workflow.Parallel.{
  Worker, starting, looking, claiming, compiling, stopped, Crew, Schedule, step_worker, run_workers,
  is_stopped, start_workers, level_threads, compile_levels,
}
use fast_rules.Workflow.Parallel.Claims.{all_held, run_workers-handled}
use fast_rules.Workflow.Parallel.Errors.{
  IsAware, IsIdle, run_workers-IsOrderly, start_workers-IsIdle,
}

stopped-held : (ws : List Worker) → all is_stopped ws ≡ true → all_held ws ≡ []
stopped-held [] h = refl
stopped-held (starting ∷ ws) h = absurd (ground arith)
stopped-held (looking ∷ ws) h = absurd (ground arith)
stopped-held (claiming ∷ ws) h = absurd (ground arith)
stopped-held (compiling rule ∷ ws) h = absurd (ground arith)
stopped-held (stopped ∷ ws) h = stopped-held ws h

start-held : (n : ℕ) → all_held (start_workers n) ≡ []
start-held zero = refl
start-held (suc n) = start-held n

take_all : (n : ℕ) (level : List ℕ) → length level ≤ n → take n level ≡ level
take_all zero [] h = refl
take_all zero (a ∷ level) h = absurd (omega arith)
take_all (suc n) [] h = refl
take_all (suc n) (a ∷ level) h = ap (λ t. a ∷ t) (take_all n level (omega arith))

step_worker-length :
    (level : List ℕ) (k : ℕ) (answer : Option Text) (s : Crew) (ws : List Worker)
    → length (step_worker level k answer s ws).1 ≡ length ws
step_worker-length level k answer s [] = refl
step_worker-length level zero answer s (w ∷ ws) = refl
step_worker-length level (suc k) answer s (w ∷ ws) =
    omega (arith, step_worker-length level k answer s ws)

run_workers-length :
    (level : List ℕ) (schedule : Schedule) (s : Crew) (ws : List Worker)
    → length (run_workers level schedule s ws).1 ≡ length ws
unfolding run_workers
run_workers-length level [] s ws = refl
run_workers-length level ((k, answer) ∷ rest) s ws =
    let (s', ws') = step_worker level k answer s ws in
    run_workers-length level rest s' ws' ∙ step_worker-length level k answer s ws

length-start_workers : (n : ℕ) → length (start_workers n) ≡ n
length-start_workers zero = refl
length-start_workers (suc n) = omega (arith, length-start_workers n)

exhausted :
    (level : List ℕ) (s : Crew) (ws : List Worker)
    → 0 < length ws
    → All (IsIdle level s) ws
    → all is_stopped ws ≡ true
    → s.has_error ≡ false
    → length level ≤ s.next_rule
exhausted level s [] lt h t f = absurd (omega arith)
exhausted level s (w ∷ ws) lt h t f = h.0 f (&&-eq-true (is_stopped w) (all is_stopped ws) t).0

-- In a level that ends without an error one call for each of its rules has returned.
pub level-compiled :
    (level : List ℕ) (schedule : Schedule) (s : Crew) (threads : ℕ)
    → 0 < threads
    → IsAware s
    → s.next_rule ≡ 0
    → s.has_error ≡ false
    → let (s', ws) = run_workers level schedule s (start_workers threads) in
      all is_stopped ws ≡ true
      → s'.has_error ≡ false
      → (x : ℕ) → tally x s'.returned ≡ tally x s.returned + tally x level
level-compiled level schedule s threads lt i n f t f' x =
    let ran_all = run_workers level schedule s (start_workers threads) in
    let (aware, idle) =
      run_workers-IsOrderly level schedule s (start_workers threads)
        (i, start_workers-IsIdle level threads s) in
    let count = run_workers-handled x level schedule s (start_workers threads) in
    let over =
      exhausted level ran_all.0 ran_all.1
        (omega (
          arith,
          run_workers-length level schedule s (start_workers threads),
          length-start_workers threads,
        ))
        idle t f' in
    omega (
      arith,
      count,
      ap (tally x) (stopped-held ran_all.1 t),
      ap (tally x) (start-held threads),
      ap (tally x) (i.no_failure f).0,
      ap (tally x) (aware.no_failure f').0,
      ap (tally x) (take_all ran_all.0.next_rule level over),
      ap (λ k. tally x (take k level)) n,
    )

-- What a run of the levels means: the calls for the rules of the levels have returned, if no error came
-- up.
abbrev pub Compiles : List (List Rule) → Crew → Option Crew → Type 0
Compiles levels s none = Unit {0}
Compiles levels s (some s') =
    IsAware s'
    × (s'.has_error ≡ false
        → (s.has_error ≡ false)
          × ((x : ℕ)
              → tally x s'.returned ≡ tally x s.returned + tally x (addresses (concat levels))))

pub level_threads-positive :
    (threads : ℕ) (level : List ℕ) → 0 < threads → 0 < level_threads threads level
level_threads-positive threads level h = omega arith

-- An error ends the loop.
pub unless_error :
    (P : Option Crew → Type 0) (s : Crew) (rest : Option Crew)
    → (s.has_error ≡ true → P (some s))
    → (s.has_error ≡ false → P rest)
    → P (if s.has_error then some s else rest)
unless_error P s rest h k = go s.has_error refl
  where
    go : (b : Bool) → s.has_error ≡ b → P (if b then some s else rest)
    go true e = h e
    go false e = k e

-- A level comes before what the next ones compile.
after_level :
    (level : List Rule) (levels : List (List Rule)) (s s' : Crew) (rest : Option Crew)
    → s.has_error ≡ false
    → (s'.has_error ≡ false
        → (x : ℕ) → tally x s'.returned ≡ tally x s.returned + tally x (addresses level))
    → Compiles levels s' rest
    → Compiles (level ∷ levels) s rest
after_level level levels s s' none f done c = tt
after_level level levels s s' (some t) f done (aware, c) = (
  aware,
  λ f'.
      let (g, later) = c f' in
      (
        f,
        λ x.
            rw
              (
                addresses-append level (concat levels),
                tally-append x (addresses level) (addresses (concat levels)),
              )
              (omega (arith, done g x, later x)),
      ),
)

pub compile_levels-Compiles :
    (threads : ℕ) (levels : List (List Rule)) (schedules : List Schedule) (s : Crew)
    → 0 < threads
    → IsAware s
    → Compiles levels s (compile_levels threads levels schedules s)
unfolding compile_levels
compile_levels-Compiles threads [] schedules s lt i = (i, λ f. (f, λ x. omega arith))
compile_levels-Compiles threads (level ∷ levels) [] s lt i =
    unless_error (Compiles (level ∷ levels) s) s none (λ t. (i, λ f. absurd (cc (t, f)))) (λ f. tt)
compile_levels-Compiles threads (level ∷ levels) (schedule ∷ schedules) s lt i =
    let listed = addresses level in
    let start : Crew = record s { next_rule = 0 } in
    let start_aware : IsAware start = record { no_failure = i.no_failure; raised = i.raised } in
    let workers = level_threads threads listed in
    let (s', ws) = run_workers listed schedule start (start_workers workers) in
    let (aware, idle) =
      run_workers-IsOrderly listed schedule start (start_workers workers)
        (start_aware, start_workers-IsIdle listed workers start) in
    let rest = compile_levels threads levels schedules s' in
    unless_error (Compiles (level ∷ levels) s) s (if all is_stopped ws then rest else none)
      (λ t. (i, λ f. absurd (cc (t, f))))
      λ f. elim (Bool-cases (all is_stopped ws)) [
        | inr n ↦ rw n tt
        | inl t ↦ rw t (
            after_level level levels s s' rest f
              (level-compiled listed schedule start workers
                (level_threads-positive threads listed lt) start_aware refl f t)
              (compile_levels-Compiles threads levels schedules s' lt aware))
      ]
