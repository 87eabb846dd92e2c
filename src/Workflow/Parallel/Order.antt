-- ===== src/Workflow/Parallel/Order.antt =====
-- In which order the threads compile the rules: a child that is listed comes before its parent.
use fast_rules.Base.{
  ℕ, zero, suc, ◌<◌, ◌≡◌, refl, sym, subst, ap, inl, inr, List, [], ◌∷◌, ◌++◌, true, false, Option,
  none, some, if◌then◌else◌, get_elem?, all, All, Has, some_injective, Bool-cases, Option-cases,
  arith, ℕ_eq,
}
use fast_rules.Base.Text.{Text}
use fast_rules.Rule.{Rule}
use fast_rules.Workflow.Compilation.{has_address, addresses}
use fast_rules.Workflow.Compilation.Round.{Unique, same_rule, absent-tally, present-tally}
use fast_rules.Workflow.Compilation.Barrier.{children, has_address-append}
use fast_rules.Workflow.Compilation.After.{IsAfter, InOrder}
use fast_rules.Workflow.Parallel.Errors.{IsAware, run_workers-IsOrderly, start_workers-IsIdle}
use fast_rules.Workflow.Parallel.Once.{unless_error, level-compiled, level_threads-positive}
use fast_rules.Workflow.Parallel.{
  Worker, starting, looking, claiming, compiling, stopped, Crew, act, step_worker, Schedule,
  run_workers, start_workers, level_threads, is_stopped, compile_levels,
}

-- Whoever has the address, each of its listed children is done.
abbrev pub IsReady : List Rule → List ℕ → ℕ → Type 0
IsReady rules done a =
    (r : Rule)
    → Has r rules
    → r.self ≡ a
    → (c : ℕ) → has_address c (children r) ≡ true
    → has_address c (addresses rules) ≡ true
    → has_address c done ≡ true

-- The last compiled rule first: each one was ready when the rules before it were compiled.
abbrev pub IsTimely : List Rule → List ℕ → Type 0
IsTimely rules [] = Unit {0}
IsTimely rules (a ∷ earlier) = IsReady rules earlier a × IsTimely rules earlier

module _ (rules : List Rule) (done level : List ℕ)
    (ready_level : All (IsReady rules done) level) where
  abbrev HoldsReady : Worker → Type 0
  HoldsReady (compiling rule) = IsReady rules done rule
  HoldsReady _ = Unit {0}

  pub record Timed (s : Crew) : Type 0 where
    pub timely : IsTimely rules s.returned
    pub has_done : (x : ℕ) → has_address x done ≡ true → has_address x s.returned ≡ true

  nth_IsReady :
      (listed : List ℕ) (n rule : ℕ)
      → All (IsReady rules done) listed
      → get_elem? listed n ≡ some rule
      → IsReady rules done rule
  nth_IsReady [] n rule h e = absurd (ground arith)
  nth_IsReady (a ∷ listed) zero rule h e = subst (IsReady rules done) (some_injective e) h.0
  nth_IsReady (a ∷ listed) (suc n) rule h e = nth_IsReady listed n rule h.1 e

  act-Timed :
      (w : Worker) (answer : Option Text) (s : Crew)
      → Timed s
      → HoldsReady w
      → let (s', w') = act level w answer s in Timed s' × HoldsReady w'
  unfolding act
  act-Timed starting none s t h = (t, tt)
  act-Timed starting (some e) s t h = (record { timely = t.timely; has_done = t.has_done }, tt)
  act-Timed looking answer s t h = elim (Bool-cases s.has_error) [
    | inl e ↦ (t, subst HoldsReady (sym (ap (λ b. if b then stopped else claiming) e)) tt)
    | inr f ↦ (t, subst HoldsReady (sym (ap (λ b. if b then stopped else claiming) f)) tt)
  ]
  act-Timed claiming answer s t h = (
    record { timely = t.timely; has_done = t.has_done },
    elim (Option-cases (get_elem? level s.next_rule)) [
      | inl e ↦ rw (act, e) tt
      | inr (rule, e) ↦ rw (act, e) (nth_IsReady level s.next_rule rule ready_level e)
    ],
  )
  act-Timed (compiling rule) none s t h = (
    record {
      timely = (λ r m e c child listed. t.has_done c (h r m e c child listed), t.timely);
      has_done = λ x d. ground (arith, t.has_done x d);
    },
    tt,
  )
  act-Timed (compiling rule) (some e) s t h =
      (record { timely = t.timely; has_done = t.has_done }, tt)
  act-Timed stopped answer s t h = (t, tt)

  step_worker-Timed :
      (k : ℕ) (answer : Option Text) (s : Crew) (ws : List Worker)
      → Timed s
      → All HoldsReady ws
      → let (s', ws') = step_worker level k answer s ws in Timed s' × All HoldsReady ws'
  step_worker-Timed k answer s [] t h = (t, tt)
  step_worker-Timed zero answer s (w ∷ ws) t h =
      let (t', h') = act-Timed w answer s t h.0 in (t', (h', h.1))
  step_worker-Timed (suc k) answer s (w ∷ ws) t h =
      let (t', h') = step_worker-Timed k answer s ws t h.1 in (t', (h.0, h'))

  run_workers-Timed :
      (schedule : Schedule) (s : Crew) (ws : List Worker)
      → Timed s
      → All HoldsReady ws
      → Timed (run_workers level schedule s ws).0
  unfolding run_workers
  run_workers-Timed [] s ws t h = t
  run_workers-Timed ((k, answer) ∷ rest) s ws t h =
      let (s', ws') = step_worker level k answer s ws in
      let (t', h') = step_worker-Timed k answer s ws t h in run_workers-Timed rest s' ws' t' h'

  start_workers-HoldsReady : (n : ℕ) → All HoldsReady (start_workers n)
  start_workers-HoldsReady zero = tt
  start_workers-HoldsReady (suc n) = (tt, start_workers-HoldsReady n)

module _ (rules : List Rule) (unique : Unique rules) where
  level-IsReady :
      (done : List ℕ) (level : List Rule)
      → All (IsAfter rules done) level
      → All (IsReady rules done) (addresses level)
  level-IsReady done [] h = tt
  level-IsReady done (q ∷ level) (after, rest) = (
    λ r m e.
        subst
          (λ r.
            (c : ℕ)
            → has_address c (children r) ≡ true
            → has_address c (addresses rules) ≡ true
            → has_address c done ≡ true)
          (same_rule rules unique after.0 m (sym e)) after.1,
    level-IsReady done level rest,
  )

  abbrev pub EndsTimely : Option Crew → Type 0
  EndsTimely none = Unit {0}
  EndsTimely (some s) = IsTimely rules s.returned

  pub compile_levels-EndsTimely :
      (threads : ℕ) (levels : List (List Rule)) (schedules : List Schedule) (s : Crew)
      (done : List ℕ)
      → 0 < threads
      → IsAware s
      → InOrder rules done levels
      → IsTimely rules s.returned
      → (s.has_error ≡ false
          → (x : ℕ) → has_address x done ≡ true
          → has_address x s.returned ≡ true)
      → EndsTimely (compile_levels threads levels schedules s)
  unfolding compile_levels
  compile_levels-EndsTimely threads [] schedules s done lt i o t h = t
  compile_levels-EndsTimely threads (level ∷ levels) [] s done lt i o t h =
      unless_error EndsTimely s none (λ e. t) (λ f. tt)
  compile_levels-EndsTimely threads (level ∷ levels) (schedule ∷ schedules) s done lt i o t h =
      let listed = addresses level in
      let start : Crew = record s { next_rule = 0 } in
      let start_aware : IsAware start = record { no_failure = i.no_failure; raised = i.raised } in
      let workers = level_threads threads listed in
      let (s', ws) = run_workers listed schedule start (start_workers workers) in
      let (aware, idle) =
        run_workers-IsOrderly listed schedule start (start_workers workers)
          (start_aware, start_workers-IsIdle listed workers start) in
      let ready = level-IsReady done level o.0 in
      let rest = compile_levels threads levels schedules s' in
      unless_error EndsTimely s (if all is_stopped ws then rest else none) (λ e. t)
        λ f. elim (Bool-cases (all is_stopped ws)) [
          | inr n ↦ rw n tt
          | inl stopped_all ↦
              let timed =
                run_workers-Timed rules done listed ready schedule start (start_workers workers)
                  (record { timely = t; has_done = h f })
                  (start_workers-HoldsReady rules done listed ready workers) in
              rw stopped_all (
                compile_levels-EndsTimely threads levels schedules s' (done ++ listed) lt aware o.1
                  timed.timely
                  (λ f' x d. elim (Bool-cases (has_address x done)) [
                    | inl in_done ↦ timed.has_done x in_done
                    | inr n ↦
                        let count =
                          level-compiled listed schedule start workers
                            (level_threads-positive threads listed lt) start_aware refl f
                            stopped_all f' x in
                        let some_there =
                          present-tally x listed
                            (ground (arith, has_address-append x done listed, n, d)) in
                        elim (Bool-cases (has_address x s'.returned)) [
                          | inl there_now ↦ there_now
                          | inr m ↦
                              absurd
                                (omega (arith, absent-tally x s'.returned m, count, some_there))
                        ]
                  ]))
        ]
