-- ===== src/Examples/Threads.antt =====
-- Threads at the pool of engines, and calls of the queues.
use fast_rules.Base.{ℕ, ◌≡◌, refl, [], ◌∷◌, List, none, some}
use fast_rules.Engines.{
  EnginePool, Event, empty_pool, publish, unlink, push_load, push_done, pop_load, pop_done, begin,
  step, Run,
}
use fast_rules.Engines.Event.{silent, pushed, popped}
use fast_rules.Engines.Thread.{idle, taken}
use fast_rules.Engines.Stack.{Holds, Effects, bottom, Run-Effects}
use fast_rules.Queue.{new_queue}
use fast_rules.Queue.Refinement.{
  Call, call_push, call_pop, call_steal, returned, returned_simple, new_queue-returned,
}

-- Thread 0 pushes the engine 7, and thread 1 pops it.
abbrev one : EnginePool ℕ
one = publish 7 none empty_pool

abbrev log : List (Event ℕ)
log = silent ∷ pushed 7 ∷ silent ∷ popped 7 ∷ []

two_threads :
    Run empty_pool
      (idle ∷ idle ∷ [])
      log
      (unlink (record { engine = 7; next = none }) one)
      (idle ∷ taken (some 7) ∷ [])
unfolding publish unlink
two_threads =
    step 1
      (step 1
        (step 0 (step 0 begin refl (push_load empty_pool 7)) refl
          (push_done empty_pool 7 none refl))
        refl (pop_load one 0 refl))
      refl (pop_done one 0 (record { engine = 7; next = none }) refl refl)

Run-Effects_example :
    (rest : List ℕ) × Holds (unlink (record { engine = 7; next = none }) one) rest
    × Effects [] log rest
Run-Effects_example = Run-Effects two_threads bottom

abbrev calls : List (Call ℕ)
calls = call_push 1 ∷ call_push 2 ∷ call_push 3 ∷ call_steal ∷ call_pop ∷ call_pop ∷ call_pop ∷ []

new_queue-returned_example : returned 0 (new_queue 0) calls ≡ returned_simple [] calls
new_queue-returned_example = new_queue-returned 0 calls

deque : returned_simple [] calls ≡ none ∷ none ∷ none ∷ some 1 ∷ some 3 ∷ some 2 ∷ none ∷ []
unfolding fast_rules.Queue.push_back
deque = refl
