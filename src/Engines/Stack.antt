-- ===== src/Engines/Stack.antt =====
-- The lock-free pool is a stack: every interleaving of threads does what pushes and pops of a list do.
use fast_rules.Base.{
  tally, ℕ, zero, suc, ◌+◌, ◌≡◌, refl, subst, List, [], ◌∷◌, ◌++◌, Option, none, some, arith,
  length, get_elem?, if◌then◌else◌, ◌==◌, ℕ_eq,
}
use fast_rules.Engines.{
  EngineNode, EnginePool, Thread, Event, empty_pool, publish, unlink, Step, push_load, push_done,
  push_again, pop_load, pop_missed, pop_done, pop_again, pop_gone, try_start, try_load, try_done,
  try_again, try_empty, try_late, returns, Run, begin, step,
}
use fast_rules.Engines.Event.{silent, missed, pushed, popped}

module _ {E : Type 0} where
  -- What an event does to a stack of engines: a pop returns the engine on top, and misses only where
  -- there is none.
  pub data Effect : Event E → List E → List E → Type 0 where
    nothing : {s : List E} → Effect silent s s
    miss : Effect missed [] []
    push : {s : List E} (e : E) → Effect (pushed e) s (e ∷ s)
    pop : {s : List E} (e : E) → Effect (popped e) (e ∷ s) s

  pub data Effects (s : List E) : List (Event E) → List E → Type 0 where
    unmoved : Effects s [] s
    then_do :
        {es : List (Event E)} {e : Event E} {t u : List E}
        → Effects s es t
        → Effect e t u
        → Effects s (es ++ e ∷ []) u

  -- The nodes from a head on hold the engines of a stack.
  pub data Linked (nodes : List (EngineNode E)) : Option ℕ → List E → Type 0 where
    bottom : Linked nodes none []
    node :
        (a : ℕ) (n : EngineNode E) {s : List E}
        → get_elem? nodes a ≡ some n
        → Linked nodes n.next s
        → Linked nodes (some a) (n.engine ∷ s)

  abbrev pub Holds : EnginePool E → List E → Type 0
  Holds p s = Linked p.nodes p.head s

  get_elem?-append :
      (xs ys : List (EngineNode E)) (a : ℕ) (n : EngineNode E)
      → get_elem? xs a ≡ some n
      → get_elem? (xs ++ ys) a ≡ some n
  get_elem?-append [] ys a n h = absurd (ground arith)
  get_elem?-append (x ∷ xs) ys zero n h = h
  get_elem?-append (x ∷ xs) ys (suc a) n h = get_elem?-append xs ys a n h

  get_elem?-last :
      (xs : List (EngineNode E)) (n : EngineNode E) → get_elem? (xs ++ n ∷ []) (length xs) ≡ some n
  get_elem?-last [] n = refl
  get_elem?-last (x ∷ xs) n = get_elem?-last xs n

  Linked-append :
      {nodes : List (EngineNode E)} {h : Option ℕ} {s : List E} (more : List (EngineNode E))
      → Linked nodes h s
      → Linked (nodes ++ more) h s
  Linked-append more bottom = bottom
  Linked-append {nodes = nodes} more (node a n e l) =
      node a n (get_elem?-append nodes more a n e) (Linked-append more l)

  publish-Holds :
      (p : EnginePool E) (engine : E) {s : List E}
      → Holds p s
      → Holds (publish engine p.head p) (engine ∷ s)
  unfolding publish
  publish-Holds p engine l =
      node (length p.nodes) (record { engine = engine; next = p.head })
        (get_elem?-last p.nodes (record { engine = engine; next = p.head }))
        (Linked-append (record { engine = engine; next = p.head } ∷ []) l)

  -- What an exchange of the head for the next node takes off.
  unlink-Holds :
      {nodes : List (EngineNode E)} {h : Option ℕ} (a : ℕ) (n : EngineNode E) {s : List E}
      → Linked nodes h s
      → h ≡ some a
      → get_elem? nodes a ≡ some n
      → (rest : List E) × Linked nodes n.next rest × Effect (popped n.engine) s rest
  unlink-Holds a n bottom e f = absurd (ground arith)
  unlink-Holds {nodes = nodes} a n (node b m {s = rest} g l) e f =
      let same_index : b ≡ a = cc in
      let same : m ≡ n = cc in
      subst
        (λ k.
          (left : List E) × Linked nodes k.next left
          × Effect (popped k.engine) (m.engine ∷ rest) left)
        same (rest, l, pop m.engine)

  missed-Effect :
      {nodes : List (EngineNode E)} {h : Option ℕ} {s : List E}
      → Linked nodes h s
      → h ≡ none
      → Effect missed s s
  missed-Effect bottom e = miss
  missed-Effect (node a n g l) e = absurd (ground arith)

  -- A step of any thread does to the stack what its event says.
  Step-Effect :
      {p q : EnginePool E} {t u : Thread E} {e : Event E} {s : List E}
      → Step p t e q u
      → Holds p s
      → (rest : List E) × Holds q rest × Effect e s rest
  unfolding unlink
  Step-Effect {s = s} (push_load p x) l = (s, l, nothing)
  Step-Effect {s = s} (push_done p x current h) l =
      (x ∷ s, subst (λ c. Holds (publish x c p) (x ∷ s)) h (publish-Holds p x l), push x)
  Step-Effect {s = s} (push_again p x current) l = (s, l, nothing)
  Step-Effect {s = s} (pop_load p current h) l = (s, l, nothing)
  Step-Effect {s = s} (pop_missed p h) l = (s, l, missed-Effect l h)
  Step-Effect (pop_done p current n h f) l = unlink-Holds current n l h f
  Step-Effect {s = s} (pop_again p current other h) l = (s, l, nothing)
  Step-Effect {s = s} (pop_gone p current h) l = (s, l, missed-Effect l h)
  Step-Effect {s = s} (try_start p deadline) l = (s, l, nothing)
  Step-Effect {s = s} (try_load p deadline current h) l = (s, l, nothing)
  Step-Effect (try_done p deadline current n h f) l = unlink-Holds current n l h f
  Step-Effect {s = s} (try_again p deadline current) l = (s, l, nothing)
  Step-Effect {s = s} (try_empty p deadline h) l = (s, l, nothing)
  Step-Effect {s = s} (try_late p deadline now h late) l = (s, l, missed-Effect l h)
  Step-Effect {s = s} (returns p result) l = (s, l, nothing)

  -- Whatever the threads do, in any interleaving: if the pool holds a stack of engines at first, it
  -- holds one at the end, and the pushes, the pops with what they returned, and the pops that found
  -- nothing, in their order, are those of a list used as a stack.
  pub Run-Effects :
      {p : EnginePool E} {ts : List (Thread E)} {s : List E} {q : EnginePool E}
      {us : List (Thread E)} {es : List (Event E)}
      → Run p ts es q us
      → Holds p s
      → (rest : List E) × Holds q rest × Effects s es rest
  Run-Effects {s = s} begin l = (s, l, unmoved)
  Run-Effects (step i r at st) l =
      let before = Run-Effects r l in
      let after = Step-Effect st before.1 in (after.0, after.1, then_do before.2 after.2)

-- How often an engine was pushed and popped; an engine is its address.
abbrev pub pushes : ℕ → List (Event ℕ) → ℕ
pushes x [] = 0
pushes x (pushed y ∷ es) = (if y == x then 1 else 0) + pushes x es
pushes x (_ ∷ es) = pushes x es

abbrev pub pops : ℕ → List (Event ℕ) → ℕ
pops x [] = 0
pops x (popped y ∷ es) = (if y == x then 1 else 0) + pops x es
pops x (_ ∷ es) = pops x es

pushes-append : (x : ℕ) (es fs : List (Event ℕ)) → pushes x (es ++ fs) ≡ pushes x es + pushes x fs
pushes-append x [] fs = omega arith
pushes-append x (silent ∷ es) fs = pushes-append x es fs
pushes-append x (missed ∷ es) fs = pushes-append x es fs
pushes-append x (pushed y ∷ es) fs = omega (arith, pushes-append x es fs)
pushes-append x (popped y ∷ es) fs = pushes-append x es fs

pops-append : (x : ℕ) (es fs : List (Event ℕ)) → pops x (es ++ fs) ≡ pops x es + pops x fs
pops-append x [] fs = omega arith
pops-append x (silent ∷ es) fs = pops-append x es fs
pops-append x (missed ∷ es) fs = pops-append x es fs
pops-append x (pushed y ∷ es) fs = pops-append x es fs
pops-append x (popped y ∷ es) fs = omega (arith, pops-append x es fs)

Effects-tally :
    (x : ℕ) {s t : List ℕ} {es : List (Event ℕ)}
    → Effects s es t
    → tally x s + pushes x es ≡ tally x t + pops x es
Effects-tally x unmoved = ground arith
Effects-tally x {s = s} (then_do {es = es} r nothing) =
    ground
      (arith, Effects-tally x r, pushes-append x es (silent ∷ []), pops-append x es (silent ∷ []))
Effects-tally x {s = s} (then_do {es = es} r miss) =
    ground
      (arith, Effects-tally x r, pushes-append x es (missed ∷ []), pops-append x es (missed ∷ []))
Effects-tally x {s = s} (then_do {es = es} r (push e)) =
    ground (
      arith,
      Effects-tally x r,
      pushes-append x es (pushed e ∷ []),
      pops-append x es (pushed e ∷ []),
    )
Effects-tally x {s = s} (then_do {es = es} r (pop e)) =
    ground (
      arith,
      Effects-tally x r,
      pushes-append x es (popped e ∷ []),
      pops-append x es (popped e ∷ []),
    )

-- From an empty pool on, in any interleaving: each engine was popped as often as it was pushed, less
-- the times that it is in the pool at the end; no engine is lost, and none is handed out twice.
pub Run_balanced :
    {q : EnginePool ℕ} {ts us : List (Thread ℕ)} {es : List (Event ℕ)}
    → Run empty_pool ts es q us
    → (rest : List ℕ) × Holds q rest × ((x : ℕ) → pushes x es ≡ tally x rest + pops x es)
Run_balanced r =
    let end = Run-Effects r bottom in (end.0, end.1, λ x. omega (arith, Effects-tally x end.2))
