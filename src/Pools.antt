-- ===== src/Pools.antt =====
-- include/fastrules/memory_pool.hpp and src/memory_pool.cpp: the pools of reusable objects. A lock
-- makes each operation one step. The counters are 64-bit words; an object is its address with its
-- content. MemoryPool and VectorPool differ in what they do to an object that goes in or out, the
-- argument `clean` of the operations.
pub mod Accounts
pub mod Reuse
use fast_rules.Base.{
  ℕ, zero, suc, ◌+◌, ◌-◌, ◌%◌, List, [], ◌∷◌, ◌++◌, Bool, Option, none, some, if◌then◌else◌, ltb,
  length,
}
use fast_rules.Context.{RuleContext, empty_context, clear}
use fast_rules.Result.{RuleResult}

pub record Object (A : Type 0) : Type 0 where
  pub address : ℕ
  pub content : A

-- The front of the queue `pool_` is the head of the list.
pub record MemoryPool (A : Type 0) : Type 0 where
  pub pool : List (Object A)
  pub max_size : ℕ
  pub allocated_count : ℕ
  pub released_count : ℕ

-- `++` on a 64-bit counter.
abbrev pub increment : ℕ → ℕ
increment n = (n + 1) % 18446744073709551616

abbrev pub new_pool : {A : Type 0} → ℕ → MemoryPool A
new_pool max_size = record {
  pool = [];
  max_size = max_size;
  allocated_count = 0;
  released_count = 0;
}

-- The loop ends at its first successful exchange, which the lock makes the first try.
unfoldable pub decrement_allocated : {A : Type 0} → MemoryPool A → MemoryPool A
decrement_allocated p = record p { allocated_count = p.allocated_count - 1 }

module _ {A : Type 0} (clean : Object A → Object A) where
  abbrev pub take_front : Object A → MemoryPool A → List (Object A) → Object A × MemoryPool A
  take_front fresh p [] = (fresh, record p { allocated_count = increment p.allocated_count })
  take_front fresh p (o ∷ os) = (clean o, record p { pool = os })

  -- `fresh` is what `make_unique` returns, if it is called.
  unfoldable pub acquire : Object A → MemoryPool A → Object A × MemoryPool A
  acquire fresh p = take_front fresh p p.pool

  -- A null pointer is not pooled; an object for which there is no room is destroyed.
  unfoldable pub release : Option (Object A) → MemoryPool A → MemoryPool A
  unfolding decrement_allocated
  release none p = p
  release (some o) p =
      let q =
        if ltb (length p.pool) p.max_size
        then record p { pool = p.pool ++ clean o ∷ [] }
        else decrement_allocated p in
      record q { released_count = increment q.released_count }

-- `fresh` are the objects that the loop makes, one for each round.
unfoldable pub preallocate : {A : Type 0} → List (Object A) → MemoryPool A → MemoryPool A
preallocate [] p = p
preallocate (o ∷ os) p =
    if ltb (length p.pool) p.max_size
    then preallocate os
        (record p { pool = p.pool ++ o ∷ []; allocated_count = increment p.allocated_count })
    else p

abbrev pub get_stats : {A : Type 0} → MemoryPool A → ℕ × ℕ
get_stats p = (length p.pool, p.allocated_count)

abbrev pub pop_all : {A : Type 0} → List (Object A) → MemoryPool A → MemoryPool A
pop_all [] p = record p { pool = [] }
pop_all (o ∷ os) p = pop_all os (record p { allocated_count = p.allocated_count - 1 })

unfoldable pub clear_pool : {A : Type 0} → MemoryPool A → MemoryPool A
clear_pool p = pop_all p.pool p

abbrev pub Vector : Type 0 → Type 0
Vector T = Object (List T)

-- `vec->clear()`.
abbrev pub cleared : {T : Type 0} → Vector T → Vector T
cleared v = record v { content = [] }

abbrev pub unchanged : {A : Type 0} → Object A → Object A
unchanged o = o

-- `VectorPool` reserves an initial capacity, which no result depends on.
unfoldable pub acquire_vector :
    {T : Type 0} → ℕ → MemoryPool (List T) → Vector T × MemoryPool (List T)
unfolding acquire
acquire_vector address p = acquire cleared (record { address = address; content = [] }) p

unfoldable pub release_vector :
    {T : Type 0} → Option (Vector T) → MemoryPool (List T) → MemoryPool (List T)
unfolding release
release_vector v p = release cleared v p

-- `count` objects at the addresses from `address` on.
abbrev pub fresh_objects : {A : Type 0} → A → ℕ → ℕ → List (Object A)
fresh_objects content address zero = []
fresh_objects content address (suc count) =
    record { address = address; content = content } ∷ fresh_objects content (suc address) count

module _ (V : Type 0) where
  pub record MemoryManager : Type 0 where
    pub context_pool : MemoryPool (RuleContext V)
    pub result_vector_pool : MemoryPool (List RuleResult)

module _ {V : Type 0} where
  unfoldable pub new_manager : MemoryManager V
  new_manager = record { context_pool = new_pool 1000; result_vector_pool = new_pool 1000 }

  unfoldable pub acquire_context : ℕ → MemoryManager V → Object (RuleContext V) × MemoryManager V
  unfolding acquire
  acquire_context address m =
      let taken =
        acquire unchanged (record { address = address; content = empty_context }) m.context_pool in
      (taken.0, record m { context_pool = taken.1 })

  unfoldable pub release_context :
      Option (Object (RuleContext V)) → MemoryManager V → MemoryManager V
  unfolding release clear
  release_context none m = m
  release_context (some c) m = record m {
    context_pool = release unchanged (some (record c { content = clear c.content })) m.context_pool;
  }

  unfoldable pub acquire_result_vector : ℕ → MemoryManager V → Vector RuleResult × MemoryManager V
  unfolding acquire_vector
  acquire_result_vector address m =
      let taken = acquire_vector address m.result_vector_pool in
      (taken.0, record m { result_vector_pool = taken.1 })

  unfoldable pub release_result_vector :
      Option (Vector RuleResult) → MemoryManager V → MemoryManager V
  unfolding release_vector
  release_result_vector v m = record m {
    result_vector_pool = release_vector v m.result_vector_pool;
  }

  unfoldable pub preallocate_all : ℕ → ℕ → MemoryManager V → MemoryManager V
  unfolding preallocate
  preallocate_all contexts vectors m = record {
    context_pool = preallocate (fresh_objects empty_context contexts 100) m.context_pool;
    result_vector_pool = preallocate (fresh_objects [] vectors 100) m.result_vector_pool;
  }
