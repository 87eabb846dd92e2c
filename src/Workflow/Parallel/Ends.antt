-- ===== src/Workflow/Parallel/Ends.antt =====
-- The threads of a level stop: how many steps they can take.
use fast_rules.Base.{
  ℕ, zero, suc, ◌+◌, ◌-◌, ◌*◌, ◌≤◌, ◌<◌, ◌≡◌, refl, inl, inr, List, [], ◌∷◌, Bool, true, false, not,
  Option, none, some, if◌then◌else◌, get_elem?, length, all, Bool-cases, Option-cases, arith,
}
use fast_rules.Base.Text.{Text}
use fast_rules.Workflow.Parallel.{
  Worker, starting, looking, claiming, compiling, stopped, Crew, act, step_worker, Schedule,
  run_workers, is_stopped, start_workers,
}
use fast_rules.Workflow.Parallel.Claims.{take-none}

-- How many steps a worker takes at most before it claims or stops.
abbrev weight : Worker → ℕ
weight starting = 4
weight looking = 3
weight claiming = 2
weight (compiling rule) = 4
weight stopped = 0

abbrev weights : List Worker → ℕ
weights [] = 0
weights (w ∷ ws) = weight w + weights ws

-- Whether the scheduled thread is one that runs.
abbrev pub moves : ℕ → List Worker → Bool
moves k [] = false
moves zero (w ∷ ws) = not (is_stopped w)
moves (suc k) (w ∷ ws) = moves k ws

-- How many steps of a schedule are steps of running threads.
unfoldable pub count_moves : List ℕ → Schedule → Crew → List Worker → ℕ
count_moves level [] s ws = 0
count_moves level ((k, answer) ∷ rest) s ws =
    let (s', ws') = step_worker level k answer s ws in
    let later = count_moves level rest s' ws' in if moves k ws then suc later else later

get_elem?-lt : (level : List ℕ) (n rule : ℕ) → get_elem? level n ≡ some rule → n < length level
get_elem?-lt [] n rule e = absurd (ground arith)
get_elem?-lt (a ∷ level) zero rule e = omega arith
get_elem?-lt (a ∷ level) (suc n) rule e = omega (arith, get_elem?-lt level n rule e)

module _ (level : List ℕ) where
  abbrev left_over : Crew → ℕ
  left_over s = 4 * (length level - s.next_rule)

  act-le :
      (w : Worker) (answer : Option Text) (s : Crew)
      → let (s', w') = act level w answer s in
        left_over s' + weight w' + (if is_stopped w then 0 else 1) ≤ left_over s + weight w
  unfolding act
  act-le starting none s = omega arith
  act-le starting (some e) s = omega arith
  act-le looking answer s = elim (Bool-cases s.has_error) [
    | inl t ↦ rw (act, t) (omega arith)
    | inr f ↦ rw (act, f) (omega arith)
  ]
  act-le claiming answer s = elim (Option-cases (get_elem? level s.next_rule)) [
    | inl e ↦ rw (act, e) (omega (arith, (take-none s.next_rule level e).0))
    | inr (rule, e) ↦ rw (act, e) (omega (arith, get_elem?-lt level s.next_rule rule e))
  ]
  act-le (compiling rule) none s = omega arith
  act-le (compiling rule) (some e) s = omega arith
  act-le stopped answer s = omega arith

  step_worker-le :
      (k : ℕ) (answer : Option Text) (s : Crew) (ws : List Worker)
      → let (s', ws') = step_worker level k answer s ws in
        left_over s' + weights ws' + (if moves k ws then 1 else 0) ≤ left_over s + weights ws
  step_worker-le k answer s [] = omega arith
  step_worker-le zero answer s (w ∷ ws) = elim (Bool-cases (is_stopped w)) [
    | inl t ↦ rw t (omega (arith, rw t at (act-le w answer s)))
    | inr f ↦ rw f (omega (arith, rw f at (act-le w answer s)))
  ]
  step_worker-le (suc k) answer s (w ∷ ws) = omega (arith, step_worker-le k answer s ws)

  count_moves-le :
      (schedule : Schedule) (s : Crew) (ws : List Worker)
      → count_moves level schedule s ws ≤ left_over s + weights ws
  unfolding count_moves
  count_moves-le [] s ws = omega arith
  count_moves-le ((k, answer) ∷ rest) s ws =
      let (s', ws') = step_worker level k answer s ws in
      elim (Bool-cases (moves k ws)) [
        | inl t ↦
            rw t (omega (arith, count_moves-le rest s' ws', rw t at (step_worker-le k answer s ws)))
        | inr f ↦
            rw f (omega (arith, count_moves-le rest s' ws', rw f at (step_worker-le k answer s ws)))
      ]

  -- While not all threads have stopped, there is one to run.
  running : (ws : List Worker) → all is_stopped ws ≡ false → (k : ℕ) × (moves k ws ≡ true)
  running [] h = absurd (ground arith)
  running (w ∷ ws) h = elim (Bool-cases (is_stopped w)) [
    | inl t ↦ let (k, m) = running ws (rw t at h) in (suc k, m)
    | inr f ↦ (0, rw f refl)
  ]

  can_stop :
      (n : ℕ) (s : Crew) (ws : List Worker)
      → left_over s + weights ws < n
      → (schedule : Schedule) × (all is_stopped (run_workers level schedule s ws).1 ≡ true)
  unfolding run_workers
  can_stop zero s ws lt = absurd (omega arith)
  can_stop (suc n) s ws lt = elim (Bool-cases (all is_stopped ws)) [
    | inl t ↦ ([], t)
    | inr f ↦
        let (k, m) = running ws f in
        let (s', ws') = step_worker level k none s ws in
        let less : left_over s' + weights ws' < n =
          omega (arith, lt, rw m at (step_worker-le k none s ws)) in
        let (rest, e) = can_stop n s' ws' less in ((k, none) ∷ rest, e)
  ]

weights-start : (n : ℕ) → weights (start_workers n) ≡ 4 * n
weights-start zero = refl
weights-start (suc n) = omega (arith, weights-start n)

-- The threads of a level take at most four steps for each rule and for each thread, whatever the
-- schedule, and from wherever it leaves them, there is a schedule on which all of them stop.
pub level_ends :
    (level : List ℕ) (schedule : Schedule) (s : Crew) (threads : ℕ)
    → (count_moves level schedule s (start_workers threads) ≤ 4 * length level + 4 * threads)
      × (let (s', ws) = run_workers level schedule s (start_workers threads) in
          (rest : Schedule) × (all is_stopped (run_workers level rest s' ws).1 ≡ true))
level_ends level schedule s threads =
    let (s', ws) = run_workers level schedule s (start_workers threads) in
    (
      omega (arith, count_moves-le level schedule s (start_workers threads), weights-start threads),
      can_stop level (suc (4 * (length level - s'.next_rule) + weights ws)) s' ws (omega arith),
    )
