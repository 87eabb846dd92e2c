-- ===== src/Workflow/Parallel/Claims.antt =====
-- What the threads of a level have claimed, whatever the schedule.
use fast_rules.Base.{
  ℕ, zero, suc, ◌+◌, ◌≤◌, ◌≡◌, refl, ap, inl, inr, List, [], ◌∷◌, ◌++◌, Option, none, some,
  get_elem?, take, length, tally, tally-append, Bool-cases, Option-cases, arith, some_injective,
}
use fast_rules.Base.Text.{Text}
use fast_rules.Workflow.Parallel.{
  Worker, starting, looking, claiming, compiling, stopped, Crew, act, step_worker, Schedule,
  run_workers,
}

abbrev pub held : Worker → List ℕ
held (compiling rule) = rule ∷ []
held _ = []

abbrev pub all_held : List Worker → List ℕ
all_held [] = []
all_held (w ∷ ws) = held w ++ all_held ws

-- How often a call for a rule has returned or thrown, or is in the hands of a worker.
abbrev pub handled : ℕ → Crew → List ℕ → ℕ
handled x s hands = tally x s.returned + tally x s.threw + tally x hands

tally-take-some :
    (x n : ℕ) (level : List ℕ) (rule : ℕ)
    → get_elem? level n ≡ some rule
    → tally x (take (suc n) level) ≡ tally x (take n level) + tally x (rule ∷ [])
tally-take-some x zero [] rule e = absurd (ground arith)
tally-take-some x zero (a ∷ level) rule e =
    ground (arith, ap (λ b. tally x (b ∷ [])) (some_injective e))
tally-take-some x (suc n) [] rule e = absurd (ground arith)
tally-take-some x (suc n) (a ∷ level) rule e = ground (arith, tally-take-some x n level rule e)

pub take-none :
    (n : ℕ) (level : List ℕ)
    → get_elem? level n ≡ none
    → (length level ≤ n) × (take n level ≡ level) × (take (suc n) level ≡ level)
take-none zero [] e = (omega arith, refl, refl)
take-none (suc n) [] e = (omega arith, refl, refl)
take-none zero (a ∷ level) e = absurd (ground arith)
take-none (suc n) (a ∷ level) e =
    let (l, e', e'') = take-none n level e in
    (omega (arith, l), ap (λ t. a ∷ t) e', ap (λ t. a ∷ t) e'')

act-handled :
    (x : ℕ) (level : List ℕ) (w : Worker) (answer : Option Text) (s : Crew)
    → let (s', w') = act level w answer s in
      handled x s' (held w') + tally x (take s.next_rule level)
      ≡ handled x s (held w) + tally x (take s'.next_rule level)
unfolding act
act-handled x level starting none s = refl
act-handled x level starting (some e) s = refl
act-handled x level looking answer s = elim (Bool-cases s.has_error) [
  | inl t ↦ rw t refl
  | inr f ↦ rw f refl
]
act-handled x level claiming answer s = elim (Option-cases (get_elem? level s.next_rule)) [
  | inl e ↦ let (l, e', e'') = take-none s.next_rule level e in rw (act, e, e', e'') refl
  | inr (rule, e) ↦ rw (act, e) (ground (arith, tally-take-some x s.next_rule level rule e))
]
act-handled x level (compiling rule) none s = ground arith
act-handled x level (compiling rule) (some e) s = ground arith
act-handled x level stopped answer s = refl

step_worker-handled :
    (x : ℕ) (level : List ℕ) (k : ℕ) (answer : Option Text) (s : Crew) (ws : List Worker)
    → let (s', ws') = step_worker level k answer s ws in
      handled x s' (all_held ws') + tally x (take s.next_rule level)
      ≡ handled x s (all_held ws) + tally x (take s'.next_rule level)
step_worker-handled x level k answer s [] = refl
step_worker-handled x level zero answer s (w ∷ ws) =
    let (s', w') = act level w answer s in
    omega (
      arith,
      act-handled x level w answer s,
      tally-append x (held w) (all_held ws),
      tally-append x (held w') (all_held ws),
    )
step_worker-handled x level (suc k) answer s (w ∷ ws) =
    let (s', ws') = step_worker level k answer s ws in
    omega (
      arith,
      step_worker-handled x level k answer s ws,
      tally-append x (held w) (all_held ws),
      tally-append x (held w) (all_held ws'),
    )

pub run_workers-handled :
    (x : ℕ) (level : List ℕ) (schedule : Schedule) (s : Crew) (ws : List Worker)
    → let (s', ws') = run_workers level schedule s ws in
      handled x s' (all_held ws') + tally x (take s.next_rule level)
      ≡ handled x s (all_held ws) + tally x (take s'.next_rule level)
unfolding run_workers
run_workers-handled x level [] s ws = refl
run_workers-handled x level ((k, answer) ∷ rest) s ws =
    let (s', ws') = step_worker level k answer s ws in
    omega
      (arith, step_worker-handled x level k answer s ws, run_workers-handled x level rest s' ws')
