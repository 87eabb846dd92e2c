-- ===== src/Queue/Refinement.antt =====
-- The circular buffer does what the deque does.
use fast_rules.Base.{◌≡◌, refl, ap, List, [], ◌∷◌, Option, none}
use fast_rules.Queue.{
  WorkStealingQueue, push_back, pop_back, steal_front, new_queue, push, pop, steal,
}
use fast_rules.Queue.Layout.{Represents, new_queue-Represents, push-Represents}
use fast_rules.Queue.Take.{pop-Represents, steal-Represents}

-- A call of the queue, and what a sequence of calls returns: from the deque, and from the circular
-- buffer.
pub data Call (T : Type 0) : Type 0 where
  call_push : T → Call T
  call_pop call_steal : Call T

module _ {T : Type 0} where
  abbrev pub returned_simple : List T → List (Call T) → List (Option T)
  returned_simple d [] = []
  returned_simple d (call_push x ∷ cs) = none ∷ returned_simple (push_back x d) cs
  returned_simple d (call_pop ∷ cs) = (pop_back d).0 ∷ returned_simple (pop_back d).1 cs
  returned_simple d (call_steal ∷ cs) = (steal_front d).0 ∷ returned_simple (steal_front d).1 cs

module _ {T : Type 0} (initial : T) where
  abbrev pub returned : WorkStealingQueue T → List (Call T) → List (Option T)
  returned q [] = []
  returned q (call_push x ∷ cs) = none ∷ returned (push initial x q) cs
  returned q (call_pop ∷ cs) = (pop initial q).0 ∷ returned (pop initial q).1 cs
  returned q (call_steal ∷ cs) = (steal initial q).0 ∷ returned (steal initial q).1 cs

  returned-Represents :
      (cs : List (Call T)) (q : WorkStealingQueue T) (d : List T)
      → Represents initial q d
      → returned q cs ≡ returned_simple d cs
  returned-Represents [] q d r = refl
  returned-Represents (call_push x ∷ cs) q d r =
      ap (◌∷◌ none) (returned-Represents cs _ _ (push-Represents initial x q d r))
  returned-Represents (call_pop ∷ cs) q d r =
      let h = pop-Represents initial q d r in rw (h.0, returned-Represents cs _ _ h.1) refl
  returned-Represents (call_steal ∷ cs) q d r =
      let h = steal-Represents initial q d r in rw (h.0, returned-Represents cs _ _ h.1) refl

  -- Called by one thread at a time, the circular buffer returns what the deque of the simple queue
  -- returns, for every sequence of pushes, pops and steals on a new queue, however often it grows.
  pub new_queue-returned :
      (cs : List (Call T)) → returned (new_queue initial) cs ≡ returned_simple [] cs
  new_queue-returned cs =
      returned-Represents cs (new_queue initial) [] (new_queue-Represents initial)
