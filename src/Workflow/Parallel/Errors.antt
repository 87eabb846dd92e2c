-- ===== src/Workflow/Parallel/Errors.antt =====
-- What the threads of a level know of an error, and why they stop.
use fast_rules.Base.{
  ℕ, zero, suc, ◌≤◌, ◌≡◌, refl, inl, inr, List, [], ◌∷◌, true, false, Option, none, some, get_elem?,
  length, All, Option-cases, arith,
}
use fast_rules.Base.Text.{Text}
use fast_rules.Workflow.Parallel.{
  Worker, starting, looking, claiming, compiling, stopped, Crew, fail, act, step_worker, Schedule,
  run_workers, is_stopped, start_workers,
}
use fast_rules.Workflow.Parallel.Claims.{take-none}

-- Without an error no rule has failed, and with one there is an exception.
pub record IsAware (s : Crew) : Type 0 where
  pub no_failure : s.has_error ≡ false → (s.threw ≡ []) × (s.compile_exception ≡ none)
  pub raised : s.has_error ≡ true → (e : Text) × (s.compile_exception ≡ some e)

-- A worker that has stopped without an error has found no rule left.
abbrev pub IsIdle : List ℕ → Crew → Worker → Type 0
IsIdle level s w = s.has_error ≡ false → is_stopped w ≡ true → length level ≤ s.next_rule

-- An error stays, and the counter only grows.
abbrev Grows : Crew → Crew → Type 0
Grows s s' = (s'.has_error ≡ false → s.has_error ≡ false) × (s.next_rule ≤ s'.next_rule)

fail-IsAware : (e : Text) (s : Crew) → IsAware (fail e s)
fail-IsAware e s = record {
  no_failure = λ h. absurd (ground arith);
  raised = λ h. elim (Option-cases s.compile_exception) [
    | inl n ↦ (e, rw n refl)
    | inr (first, f) ↦ (first, rw f refl)
  ];
}

module _ (level : List ℕ) where
  act-IsAware :
      (w : Worker) (answer : Option Text) (s : Crew) → IsAware s → IsAware (act level w answer s).0
  unfolding act
  act-IsAware starting none s i = i
  act-IsAware starting (some e) s i = fail-IsAware e s
  act-IsAware looking answer s i = i
  act-IsAware claiming answer s i = (record { no_failure = i.no_failure; raised = i.raised })
  act-IsAware (compiling rule) none s i = record { no_failure = i.no_failure; raised = i.raised }
  act-IsAware (compiling rule) (some e) s i = fail-IsAware e (record s { threw = rule ∷ s.threw })
  act-IsAware stopped answer s i = i

  act-Grows : (w : Worker) (answer : Option Text) (s : Crew) → Grows s (act level w answer s).0
  unfolding act
  act-Grows starting none s = (λ h. h, omega arith)
  act-Grows starting (some e) s = (λ h. absurd (ground arith), omega arith)
  act-Grows looking answer s = (λ h. h, omega arith)
  act-Grows claiming answer s = (λ h. h, omega arith)
  act-Grows (compiling rule) none s = (λ h. h, omega arith)
  act-Grows (compiling rule) (some e) s = (λ h. absurd (ground arith), omega arith)
  act-Grows stopped answer s = (λ h. h, omega arith)

  act-IsIdle :
      (w : Worker) (answer : Option Text) (s : Crew)
      → IsIdle level s w
      → let (s', w') = act level w answer s in IsIdle level s' w'
  unfolding act
  act-IsIdle starting none s i h t = absurd (ground arith)
  act-IsIdle starting (some e) s i h t = absurd (ground arith)
  act-IsIdle looking answer s i h t = absurd (ground (arith, h, t))
  act-IsIdle claiming answer s i h t = elim (Option-cases (get_elem? level s.next_rule)) [
    | inl e ↦ omega (arith, (take-none s.next_rule level e).0)
    | inr (rule, e) ↦ absurd (ground (arith, rw (act, e) at t))
  ]
  act-IsIdle (compiling rule) none s i h t = absurd (ground arith)
  act-IsIdle (compiling rule) (some e) s i h t = absurd (ground arith)
  act-IsIdle stopped answer s i h t = i h t

  -- What holds of the crew and of each worker.
  abbrev pub IsOrderly : Crew × List Worker → Type 0
  IsOrderly (s, ws) = IsAware s × All (IsIdle level s) ws

  step_worker-Grows :
      (k : ℕ) (answer : Option Text) (s : Crew) (ws : List Worker)
      → Grows s (step_worker level k answer s ws).0
  step_worker-Grows k answer s [] = (λ h. h, omega arith)
  step_worker-Grows zero answer s (w ∷ ws) = act-Grows w answer s
  step_worker-Grows (suc k) answer s (w ∷ ws) = step_worker-Grows k answer s ws

  still-IsIdle : (s s' : Crew) (w : Worker) → Grows s s' → IsIdle level s w → IsIdle level s' w
  still-IsIdle s s' w g i h t = omega (arith, g.1, i (g.0 h) t)

  all-IsIdle :
      (s s' : Crew) (ws : List Worker)
      → Grows s s'
      → All (IsIdle level s) ws
      → All (IsIdle level s') ws
  all-IsIdle s s' [] g h = tt
  all-IsIdle s s' (w ∷ ws) g h = (still-IsIdle s s' w g h.0, all-IsIdle s s' ws g h.1)

  step_worker-IsOrderly :
      (k : ℕ) (answer : Option Text) (s : Crew) (ws : List Worker)
      → IsOrderly (s, ws)
      → IsOrderly (step_worker level k answer s ws)
  step_worker-IsOrderly k answer s [] h = h
  step_worker-IsOrderly zero answer s (w ∷ ws) (aware, (idle, rest)) = (
    act-IsAware w answer s aware,
    (
      act-IsIdle w answer s idle,
      all-IsIdle s (act level w answer s).0 ws (act-Grows w answer s) rest,
    ),
  )
  step_worker-IsOrderly (suc k) answer s (w ∷ ws) (aware, (idle, rest)) =
      let (aware', rest') = step_worker-IsOrderly k answer s ws (aware, rest) in
      let g = step_worker-Grows k answer s ws in
      (aware', (still-IsIdle s (step_worker level k answer s ws).0 w g idle, rest'))

  pub run_workers-IsOrderly :
      (schedule : Schedule) (s : Crew) (ws : List Worker)
      → IsOrderly (s, ws)
      → IsOrderly (run_workers level schedule s ws)
  unfolding run_workers
  run_workers-IsOrderly [] s ws h = h
  run_workers-IsOrderly ((k, answer) ∷ rest) s ws h =
      let (s', ws') = step_worker level k answer s ws in
      run_workers-IsOrderly rest s' ws' (step_worker-IsOrderly k answer s ws h)

  pub start_workers-IsIdle : (n : ℕ) (s : Crew) → All (IsIdle level s) (start_workers n)
  start_workers-IsIdle zero s = tt
  start_workers-IsIdle (suc n) s = (λ h t. absurd (ground arith), start_workers-IsIdle n s)
