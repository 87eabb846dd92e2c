-- ===== src/Pools/Accounts.antt =====
-- What a pool's counter counts, and that no object is handed out twice.
use fast_rules.Base.{
  tally, tally-append, ℕ, suc, ◌+◌, ◌-◌, ◌≤◌, ◌<◌, ◌≡◌, refl, ap, ◌∙◌, List, [], ◌∷◌, ◌++◌, true,
  false, some, arith, ltb, ℕ_eq, length, length-append,
}
use native.Mathlib.Decide.{dec_lt}
use fast_rules.Pools.{
  Object, MemoryPool, increment, new_pool, decrement_allocated, take_front, acquire, release,
  preallocate, pop_all, clear_pool,
}

-- A pool with the addresses of the objects that its users hold, and the number of those that the
-- users destroyed: `acquire` hands out a `unique_ptr`, and one that goes out of scope without `release`
-- deletes its object and leaves the counter as it is.
pub record Users (A : Type 0) : Type 0 where
  pub memory : MemoryPool A
  pub held : List ℕ
  pub lost : ℕ

abbrev pub addresses : {A : Type 0} → List (Object A) → List ℕ
addresses [] = []
addresses (o ∷ os) = o.address ∷ addresses os

-- How often an object is in the pool or held.
abbrev pub places : {A : Type 0} → ℕ → Users A → ℕ
places a u = tally a (addresses u.memory.pool) + tally a u.held

-- The objects in the pool, in use, and destroyed by users.
abbrev pub handed_out : {A : Type 0} → Users A → ℕ
handed_out u = length u.memory.pool + length u.held + u.lost

abbrev users : {A : Type 0} → MemoryPool A → List ℕ → ℕ → Users A
users p held lost = record { memory = p; held = held; lost = lost }

module _ {A : Type 0} (clean : Object A → Object A) where
  -- What users do: acquire an object, release or destroy one that they hold, released with whatever
  -- content it has by then, and fill or empty the pool. New objects have addresses that no object in
  -- the pool or in use has.
  pub data Step : Users A → Users A → Type 0 where
    acquires :
        (p : MemoryPool A) (held : List ℕ) (lost : ℕ) (fresh : Object A)
        → handed_out (users p held lost) < 18446744073709551615
        → places fresh.address (users p held lost) ≡ 0
        → Step
            (users p held lost)
            (users (acquire clean fresh p).1 ((acquire clean fresh p).0.address ∷ held) lost)
    releases :
        (p : MemoryPool A) (front back : List ℕ) (lost : ℕ) (o : Object A)
        → Step
            (users p (front ++ o.address ∷ back) lost)
            (users (release clean (some o) p) (front ++ back) lost)
    destroys :
        (p : MemoryPool A) (front back : List ℕ) (lost a : ℕ)
        → Step (users p (front ++ a ∷ back) lost) (users p (front ++ back) (suc lost))
    preallocates :
        (p : MemoryPool A) (held : List ℕ) (lost : ℕ) (fresh : List (Object A))
        → length fresh + handed_out (users p held lost) < 18446744073709551615
        → ((a : ℕ) → tally a (addresses fresh) + places a (users p held lost) ≤ 1)
        → Step (users p held lost) (users (preallocate fresh p) held lost)
    clears :
        (p : MemoryPool A) (held : List ℕ) (lost : ℕ)
        → Step (users p held lost) (users (clear_pool p) held lost)

  pub data Reach (s : Users A) : Users A → Type 0 where
    begin : Reach s s
    next : {t u : Users A} → Reach s t → Step t u → Reach s u

-- The pool is within its maximal size, its counter counts the objects in it, in use and destroyed by
-- users, and an object is in one place at most.
pub record IsAccounted {A : Type 0} (u : Users A) : Type 0 where
  pub bounded : length u.memory.pool ≤ u.memory.max_size
  pub counted : u.memory.allocated_count ≡ handed_out u
  pub single : (a : ℕ) → places a u ≤ 1

tally-addresses_snoc :
    {A : Type 0} (a : ℕ) (os : List (Object A)) (o : Object A)
    → tally a (addresses (os ++ o ∷ [])) ≡ tally a (addresses os) + tally a (o.address ∷ [])
tally-addresses_snoc a [] o = ground arith
tally-addresses_snoc a (x ∷ os) o = ground (arith, tally-addresses_snoc a os o)

ltb-true : {a b : ℕ} → a < b → ltb a b ≡ true
ltb-true h = ground arith

ltb-false : {a b : ℕ} → ¬ (a < b) → ltb a b ≡ false
ltb-false h = ground arith

increment_fits : (n : ℕ) → n < 18446744073709551615 → increment n ≡ n + 1
increment_fits n h = omega arith

module _ {A : Type 0} (clean : Object A → Object A)
    (keeps : (o : Object A) → (clean o).address ≡ o.address) where
  acquire-IsAccounted :
      (p : MemoryPool A) (os : List (Object A)) (held : List ℕ) (lost : ℕ) (fresh : Object A)
      → p.pool ≡ os
      → handed_out (users p held lost) < 18446744073709551615
      → places fresh.address (users p held lost) ≡ 0
      → IsAccounted (users p held lost)
      → IsAccounted (
          users
            (take_front clean fresh p os).1
            ((take_front clean fresh p os).0.address ∷ held)
            lost)
  acquire-IsAccounted p [] held lost fresh e fits new h = record {
    bounded = h.bounded;
    counted = omega (arith, h.counted, fits);
    single = λ a. ground (arith, h.single a, new);
  }
  acquire-IsAccounted p (o ∷ os) held lost fresh e fits new h = record {
    bounded = omega (arith, h.bounded, ap length e);
    counted = omega (arith, h.counted, ap length e);
    single = λ a. ground (arith, h.single a, ap (λ ps. tally a (addresses ps)) e, keeps o);
  }

  release-IsAccounted :
      (p : MemoryPool A) (front back : List ℕ) (lost : ℕ) (o : Object A)
      → IsAccounted (users p (front ++ o.address ∷ back) lost)
      → IsAccounted (users (release clean (some o) p) (front ++ back) lost)
  unfolding release decrement_allocated
  release-IsAccounted p front back lost o h = elim (dec_lt (length p.pool) p.max_size) [
    | yes lt ↦ rw (ltb-true lt) (record {
      bounded = omega (arith, length-append p.pool (clean o ∷ []), lt);
      counted = omega (
        arith,
        h.counted,
        length-append p.pool (clean o ∷ []),
        length-append front (o.address ∷ back),
        length-append front back,
      );
      single = λ a. ground (
        arith,
        h.single a,
        tally-addresses_snoc a p.pool (clean o),
        tally-append a front (o.address ∷ back),
        tally-append a front back,
        keeps o,
      );
    })
    | no ge ↦ rw (ltb-false ge) (record {
      bounded = h.bounded;
      counted =
          omega
            (arith, h.counted, length-append front (o.address ∷ back), length-append front back);
      single = λ a.
          ground
            (arith, h.single a, tally-append a front (o.address ∷ back), tally-append a front back);
    })
  ]

preallocate-IsAccounted :
    {A : Type 0} (fresh : List (Object A)) (p : MemoryPool A) (held : List ℕ) (lost : ℕ)
    → length fresh + handed_out (users p held lost) < 18446744073709551615
    → ((a : ℕ) → tally a (addresses fresh) + places a (users p held lost) ≤ 1)
    → IsAccounted (users p held lost)
    → IsAccounted (users (preallocate fresh p) held lost)
unfolding preallocate
preallocate-IsAccounted [] p held lost fits new h = h
preallocate-IsAccounted (o ∷ os) p held lost fits new h = elim (dec_lt (length p.pool) p.max_size) [
  | yes lt ↦ rw (ltb-true lt) (
      preallocate-IsAccounted os
        (record p { pool = p.pool ++ o ∷ []; allocated_count = increment p.allocated_count }) held
        lost (omega (arith, fits, length-append p.pool (o ∷ [])))
        (λ a. ground (arith, new a, tally-addresses_snoc a p.pool o))
        (record {
          bounded = omega (arith, length-append p.pool (o ∷ []), lt);
          counted = omega (arith, h.counted, length-append p.pool (o ∷ []), fits);
          single = λ a. ground (arith, new a, tally-addresses_snoc a p.pool o);
        }))
  | no ge ↦ rw (ltb-false ge) h
]

destroy-IsAccounted :
    {A : Type 0} (p : MemoryPool A) (front back : List ℕ) (lost a : ℕ)
    → IsAccounted (users p (front ++ a ∷ back) lost)
    → IsAccounted (users p (front ++ back) (suc lost))
destroy-IsAccounted p front back lost a h = record {
  bounded = h.bounded;
  counted = omega (arith, h.counted, length-append front (a ∷ back), length-append front back);
  single =
      λ x. ground (arith, h.single x, tally-append x front (a ∷ back), tally-append x front back);
}

emptied : {A : Type 0} → MemoryPool A → ℕ → MemoryPool A
emptied p n = record p { pool = []; allocated_count = n }

pop_all_lem :
    {A : Type 0} (os : List (Object A)) (p : MemoryPool A)
    → pop_all os p ≡ emptied p (p.allocated_count - length os)
unfolding emptied
pop_all_lem [] p =
    let e : p.allocated_count ≡ p.allocated_count - 0 = omega arith in ap (emptied p) e
pop_all_lem (o ∷ os) p =
    let q : MemoryPool _ = record p { allocated_count = p.allocated_count - 1 } in
    let e : p.allocated_count - 1 - length os ≡ p.allocated_count - suc (length os) = omega arith in
    pop_all_lem os q ∙ ap (emptied p) e

clear_pool-IsAccounted :
    {A : Type 0} (p : MemoryPool A) (held : List ℕ) (lost : ℕ)
    → IsAccounted (users p held lost)
    → IsAccounted (users (clear_pool p) held lost)
unfolding clear_pool emptied
clear_pool-IsAccounted p held lost h = rw (pop_all_lem p.pool p) (record {
  bounded = omega arith;
  counted = omega (arith, h.counted);
  single = λ a. omega (arith, h.single a);
})

module _ {A : Type 0} (clean : Object A → Object A)
    (keeps : (o : Object A) → (clean o).address ≡ o.address) where
  Step-IsAccounted : {s t : Users A} → Step clean s t → IsAccounted s → IsAccounted t
  unfolding acquire
  Step-IsAccounted (acquires p held lost fresh fits new) h =
      acquire-IsAccounted clean keeps p p.pool held lost fresh refl fits new h
  Step-IsAccounted (releases p front back lost o) h =
      release-IsAccounted clean keeps p front back lost o h
  Step-IsAccounted (destroys p front back lost a) h = destroy-IsAccounted p front back lost a h
  Step-IsAccounted (preallocates p held lost fresh fits new) h =
      preallocate-IsAccounted fresh p held lost fits new h
  Step-IsAccounted (clears p held lost) h = clear_pool-IsAccounted p held lost h

  -- If the operation that cleans an object keeps its address: from an empty pool, whatever sequence
  -- of steps users take, acquiring, releasing objects that they hold, destroying objects that they
  -- hold without releasing them, preallocating and clearing, with fewer than 2 ^ 64 - 1 objects
  -- counted: the pool stays within its maximal size, its counter is the number of objects in it, in
  -- use and destroyed by users, and no object is in two places, so that none is handed out while it
  -- is in use.
  pub Reach-IsAccounted :
      (max_size : ℕ) {t : Users A}
      → Reach clean (record { memory = new_pool max_size; held = []; lost = 0 }) t
      → IsAccounted t
  Reach-IsAccounted max_size begin = record {
    bounded = omega arith;
    counted = refl;
    single = λ a. omega arith;
  }
  Reach-IsAccounted max_size (next r st) = Step-IsAccounted st (Reach-IsAccounted max_size r)
