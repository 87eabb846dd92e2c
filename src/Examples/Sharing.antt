-- ===== src/Examples/Sharing.antt =====
-- Pools in use.
use fast_rules.Base.{ℕ, ◌≡◌, refl, [], ◌∷◌, some, arith}
use fast_rules.Base.Text.{codes}
use fast_rules.Context.{RuleContext, empty_context, set_variable}
use fast_rules.Pools.{
  Object, MemoryManager, unchanged, new_pool, new_manager, acquire, release, acquire_context,
  release_context, acquire_result_vector,
}
use fast_rules.Pools.Accounts
use fast_rules.Pools.Accounts.{Users, acquires, releases, destroys, IsAccounted, Reach-IsAccounted}
use fast_rules.Pools.Reuse
use fast_rules.Pools.Reuse.{releases_context, IsBlank, acquired-IsBlank}

abbrev object : Object ℕ
object = record { address = 5; content = 0 }

-- An object is acquired, changed and released.
acquired : Users ℕ
unfolding acquire
acquired = record { memory = (acquire unchanged object (new_pool 2)).1; held = 5 ∷ []; lost = 0 }

released : Users ℕ
unfolding acquired release
released = record {
  memory = release unchanged (some (record object { content = 9 })) acquired.memory;
  held = [];
  lost = 0;
}

reach_acquired :
    Accounts.Reach unchanged (record { memory = new_pool 2; held = []; lost = 0 }) acquired
unfolding acquired acquire
reach_acquired =
    Accounts.Reach.next Accounts.Reach.begin (acquires (new_pool 2) [] 0 object (omega arith) refl)

reach : Accounts.Reach unchanged (record { memory = new_pool 2; held = []; lost = 0 }) released
unfolding released acquired
reach =
    Accounts.Reach.next reach_acquired
      (releases acquired.memory [] [] 0 (record object { content = 9 }))

abbrev other : Object ℕ
other = record { address = 6; content = 0 }

-- The object is acquired again, and destroyed.
again : Users ℕ
unfolding released acquire
again = record { memory = (acquire unchanged other released.memory).1; held = 5 ∷ []; lost = 0 }

destroyed : Users ℕ
unfolding again
destroyed = record { memory = again.memory; held = []; lost = 1 }

reach_destroyed :
    Accounts.Reach unchanged (record { memory = new_pool 2; held = []; lost = 0 }) destroyed
unfolding destroyed again released acquired acquire release
reach_destroyed =
    Accounts.Reach.next
      (Accounts.Reach.next reach (acquires released.memory [] 0 other (omega arith) refl))
      (destroys again.memory [] [] 0 5)

Reach-IsAccounted_example : IsAccounted destroyed
Reach-IsAccounted_example = Reach-IsAccounted unchanged (λ o. refl) 2 reach_destroyed

-- A context that is released with a variable in it.
abbrev used : Object (RuleContext ℕ)
used = record { address = 3; content = set_variable (codes "x") 1 empty_context }

abbrev manager : MemoryManager ℕ
manager = release_context (some used) new_manager

manager-Reach : Reuse.Reach new_manager manager
manager-Reach = Reuse.Reach.next Reuse.Reach.begin (releases_context (some used) new_manager)

acquired-IsBlank_example :
    IsBlank (acquire_context 8 manager).0 × ((acquire_result_vector 8 manager).0.content ≡ [])
acquired-IsBlank_example = acquired-IsBlank {m = manager} 8 manager-Reach
