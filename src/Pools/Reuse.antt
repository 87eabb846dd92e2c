-- ===== src/Pools/Reuse.antt =====
-- What users of the memory manager find in the objects that they acquire.
use fast_rules.Base.{
  ℕ, zero, suc, ◌≡◌, refl, inl, inr, List, [], ◌∷◌, Option, none, some, ltb, length, All,
  All-append, Bool-cases,
}
use fast_rules.Context.{RuleContext, clear, empty_context}
use fast_rules.Result.{RuleResult}
use fast_rules.Pools.{
  Object, MemoryPool, Vector, MemoryManager, unchanged, cleared, take_front, acquire, release,
  preallocate, decrement_allocated, fresh_objects, new_manager, acquire_context, release_context,
  acquire_vector, acquire_result_vector, release_result_vector, preallocate_all,
}

abbrev pub IsBlank : {V : Type 0} → Object (RuleContext V) → Type 0
IsBlank c = (c.content.results ≡ []) × (c.content.variables ≡ [])

fresh-All :
    (V : Type 0) (address count : ℕ)
    → All IsBlank (fresh_objects (empty_context {V = V}) address count)
fresh-All V address zero = tt
fresh-All V address (suc count) = ((refl, refl), fresh-All V (suc address) count)

take_cleared :
    {T : Type 0} (address : ℕ) (p : MemoryPool (List T)) (os : List (Vector T))
    → (take_front cleared (record { address = address; content = [] }) p os).0.content ≡ []
take_cleared address p [] = refl
take_cleared address p (o ∷ os) = refl

module _ {V : Type 0} where
  -- The calls of the manager; a context or a vector that is released can hold anything.
  pub data Step : MemoryManager V → MemoryManager V → Type 0 where
    acquires_context : (address : ℕ) (m : MemoryManager V) → Step m (acquire_context address m).1
    releases_context :
        (c : Option (Object (RuleContext V))) (m : MemoryManager V) → Step m (release_context c m)
    acquires_vector :
        (address : ℕ) (m : MemoryManager V) → Step m (acquire_result_vector address m).1
    releases_vector :
        (v : Option (Vector RuleResult)) (m : MemoryManager V) → Step m (release_result_vector v m)
    preallocates :
        (contexts vectors : ℕ) (m : MemoryManager V) → Step m (preallocate_all contexts vectors m)

  pub data Reach (s : MemoryManager V) : MemoryManager V → Type 0 where
    begin : Reach s s
    next : {t u : MemoryManager V} → Reach s t → Step t u → Reach s u

  abbrev HasBlanks : MemoryManager V → Type 0
  HasBlanks m = All IsBlank m.context_pool.pool

  take-All :
      (p : MemoryPool (RuleContext V)) (fresh : Object (RuleContext V))
      (os : List (Object (RuleContext V)))
      → All IsBlank os
      → IsBlank fresh
      → All IsBlank p.pool
      → IsBlank (take_front unchanged fresh p os).0
        × All IsBlank (take_front unchanged fresh p os).1.pool
  take-All p fresh [] h f hp = (f, hp)
  take-All p fresh (o ∷ os) h f hp = h

  release-All :
      (c : Object (RuleContext V)) (p : MemoryPool (RuleContext V))
      → IsBlank c
      → All IsBlank p.pool
      → All IsBlank (release unchanged (some c) p).pool
  unfolding release decrement_allocated
  release-All c p b h = elim (Bool-cases (ltb (length p.pool) p.max_size)) [
    | inl e ↦ rw e (All-append IsBlank p.pool c h b)
    | inr e ↦ rw e h
  ]

  preallocate-All :
      (fresh : List (Object (RuleContext V))) (p : MemoryPool (RuleContext V))
      → All IsBlank fresh
      → All IsBlank p.pool
      → All IsBlank (preallocate fresh p).pool
  unfolding preallocate
  preallocate-All [] p f h = h
  preallocate-All (o ∷ os) p f h = elim (Bool-cases (ltb (length p.pool) p.max_size)) [
    | inl e ↦ rw e (preallocate-All os _ f.1 (All-append IsBlank p.pool o h f.0))
    | inr e ↦ rw e h
  ]

  acquire_context-All :
      (address : ℕ) (m : MemoryManager V)
      → HasBlanks m
      → IsBlank (acquire_context address m).0 × HasBlanks (acquire_context address m).1
  unfolding acquire_context acquire
  acquire_context-All address m h =
      take-All m.context_pool (record { address = address; content = empty_context })
        m.context_pool.pool h (refl, refl) h

  Step-HasBlanks : {s t : MemoryManager V} → Step s t → HasBlanks s → HasBlanks t
  unfolding release_context clear acquire_result_vector release_result_vector preallocate_all
  Step-HasBlanks (acquires_context address m) h = (acquire_context-All address m h).1
  Step-HasBlanks (releases_context none m) h = h
  Step-HasBlanks (releases_context (some c) m) h =
      release-All (record c { content = clear c.content }) m.context_pool (refl, refl) h
  Step-HasBlanks (acquires_vector address m) h = h
  Step-HasBlanks (releases_vector v m) h = h
  Step-HasBlanks (preallocates contexts vectors m) h =
      preallocate-All (fresh_objects empty_context contexts 100) m.context_pool
        (fresh-All V contexts 100) h

  Reach-HasBlanks : {m : MemoryManager V} → Reach new_manager m → HasBlanks m
  unfolding new_manager
  Reach-HasBlanks begin = tt
  Reach-HasBlanks (next r st) = Step-HasBlanks st (Reach-HasBlanks r)

  -- Whatever calls of the manager came before, also with contexts and vectors that were released
  -- full: an acquired context holds no results and no variables, and an acquired vector is empty.
  pub acquired-IsBlank :
      {m : MemoryManager V} (address : ℕ)
      → Reach new_manager m
      → IsBlank (acquire_context address m).0 × ((acquire_result_vector address m).0.content ≡ [])
  unfolding acquire_result_vector acquire_vector acquire
  acquired-IsBlank {m = m} address r = (
    (acquire_context-All address m (Reach-HasBlanks r)).0,
    take_cleared address m.result_vector_pool m.result_vector_pool.pool,
  )
