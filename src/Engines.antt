-- ===== src/Engines.antt =====
-- include/fastrules/engine_pool.hpp: the lock-free stack of Lua engines, which threads push and pop by
-- compare-and-swap. Each access to the shared head is one step,
-- and all threads see the steps in one order. A node is never changed after it is
-- published, and the pointer `current` of a thread keeps its node alive, so that no other node gets
-- its address meanwhile: a node is its index in the list of all published nodes.
pub mod Stack
use fast_rules.Base.{
  ℕ, zero, suc, ◌+◌, List, [], ◌∷◌, ◌++◌, Bool, true, false, Option, none, some, length, leb,
  get_elem?, if◌then◌else◌, ◌≡◌, ◌≤◌,
}

module _ (E : Type 0) where
  pub record EngineNode : Type 0 where
    pub engine : E
    pub next : Option ℕ

  pub record EnginePool : Type 0 where
    pub head : Option ℕ
    pub nodes : List EngineNode

  -- Where a thread stands. `pushing` has linked its unpublished node to `current`; `popping` and
  -- `trying` have loaded `current`, which is not null; `waiting` has found no engine and looks
  -- again; `taken` holds what its call returned.
  pub data Thread : Type 0 where
    idle : Thread
    pushing : (engine : E) (current : Option ℕ) → Thread
    popping : (current : ℕ) → Thread
    trying : (deadline current : ℕ) → Thread
    waiting : (deadline : ℕ) → Thread
    taken : Option E → Thread

-- What a step does to the stack, if it does anything.
pub data Event (E : Type 0) : Type 0 where
  silent missed : Event E
  pushed popped : E → Event E

module _ {E : Type 0} where
  abbrev pub empty_pool : EnginePool E
  empty_pool = record { head = none; nodes = [] }

  -- `head == nullptr`.
  unfoldable pub empty : EnginePool E → Bool
  empty p = elim p.head [ none ↦ true | some _ ↦ false ]

  -- `node->next = current`, and the exchange of the head for the node, if it succeeds.
  unfoldable pub publish : E → Option ℕ → EnginePool E → EnginePool E
  publish engine current p = record {
    head = some (length p.nodes);
    nodes = p.nodes ++ record { engine = engine; next = current } ∷ [];
  }

  -- `current->next` and `current->engine`.
  abbrev pub node_at : ℕ → EnginePool E → Option (EngineNode E)
  node_at a p = get_elem? p.nodes a

  -- The exchange of the head for the next node, if it succeeds.
  unfoldable pub unlink : EngineNode E → EnginePool E → EnginePool E
  unlink node p = record p { head = node.next }

  -- A step of one thread: `weak` exchanges can fail though the head is as expected. `now` is a reading
  -- of the clock.
  pub data Step : EnginePool E → Thread E → Event E → EnginePool E → Thread E → Type 0 where
    push_load : (p : EnginePool E) (engine : E) → Step p idle silent p (pushing engine p.head)
    push_done :
        (p : EnginePool E) (engine : E) (current : Option ℕ)
        → p.head ≡ current
        → Step p (pushing engine current) (pushed engine) (publish engine current p) idle
    push_again :
        (p : EnginePool E) (engine : E) (current : Option ℕ)
        → Step p (pushing engine current) silent p (pushing engine p.head)
    pop_load :
        (p : EnginePool E) (current : ℕ)
        → p.head ≡ some current
        → Step p idle silent p (popping current)
    pop_missed : (p : EnginePool E) → p.head ≡ none → Step p idle missed p (taken none)
    pop_done :
        (p : EnginePool E) (current : ℕ) (node : EngineNode E)
        → p.head ≡ some current
        → node_at current p ≡ some node
        → Step p (popping current) (popped node.engine) (unlink node p) (taken (some node.engine))
    pop_again :
        (p : EnginePool E) (current other : ℕ)
        → p.head ≡ some other
        → Step p (popping current) silent p (popping other)
    pop_gone :
        (p : EnginePool E) (current : ℕ)
        → p.head ≡ none
        → Step p (popping current) missed p (taken none)
    try_start : (p : EnginePool E) (deadline : ℕ) → Step p idle silent p (waiting deadline)
    try_load :
        (p : EnginePool E) (deadline current : ℕ)
        → p.head ≡ some current
        → Step p (waiting deadline) silent p (trying deadline current)
    try_done :
        (p : EnginePool E) (deadline current : ℕ) (node : EngineNode E)
        → p.head ≡ some current
        → node_at current p ≡ some node
        → Step p
            (trying deadline current)
            (popped node.engine)
            (unlink node p)
            (taken (some node.engine))
    try_again :
        (p : EnginePool E) (deadline current : ℕ)
        → Step p (trying deadline current) silent p (waiting deadline)
    try_empty :
        (p : EnginePool E) (deadline : ℕ)
        → p.head ≡ none
        → Step p (waiting deadline) silent p (waiting deadline)
    try_late :
        (p : EnginePool E) (deadline now : ℕ)
        → p.head ≡ none
        → deadline ≤ now
        → Step p (waiting deadline) missed p (taken none)
    returns : (p : EnginePool E) (result : Option E) → Step p (taken result) silent p idle

  abbrev pub set_thread : ℕ → Thread E → List (Thread E) → List (Thread E)
  set_thread i t [] = []
  set_thread zero t (u ∷ us) = t ∷ us
  set_thread (suc i) t (u ∷ us) = u ∷ set_thread i t us

  -- Any number of threads in any interleaving of their steps, with the events in their order.
  pub data Run (p : EnginePool E) (ts : List (Thread E))
      : List (Event E) → EnginePool E → List (Thread E) → Type 0 where
    begin : Run p ts [] p ts
    step :
        {q r : EnginePool E} {us : List (Thread E)} {es : List (Event E)} {e : Event E}
        {t u : Thread E} (i : ℕ)
        → Run p ts es q us
        → get_elem? us i ≡ some t
        → Step q t e r u
        → Run p ts (es ++ e ∷ []) r (set_thread i u us)
