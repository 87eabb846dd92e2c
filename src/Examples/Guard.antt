-- ===== src/Examples/Guard.antt =====
-- A guard around a Lua state with a hook.
use fast_rules.Base.{ℕ, ◌≡◌, refl, List, [], ◌∷◌, Option, none, some, arith}
use fast_rules.Base.Text.{Text}
use fast_rules.Sandbox.{new_config}
use fast_rules.Sandbox.Manager.{
  Hook, other_hook, Allocator, other_allocator, LuaApi, SandboxManager, is_sandboxed, enter_guard,
  leave_guard,
}
use fast_rules.Sandbox.Restore.{leave_guard-enter_guard}

record Slots : Type 0 where
  hook_slot : Option Hook
  allocator_slot : Allocator
  registry_slot : Option ℕ
  cleared : List Text

abbrev slots_api : LuaApi Slots
slots_api = record {
  hook = λ s. s.hook_slot;
  allocator = λ s. s.allocator_slot;
  registered = λ s. s.registry_slot;
  set_hook = λ h s. record s { hook_slot = h };
  set_allocator = λ a s. record s { allocator_slot = a };
  set_registered = λ r s. record s { registry_slot = r };
  clear_global = λ x s. record s { cleared = x ∷ s.cleared };
  hook-set_hook = λ h s. refl;
  hook-set_allocator = λ a s. refl;
  hook-set_registered = λ r s. refl;
  hook-clear_global = λ x s. refl;
  allocator-set_hook = λ h s. refl;
  allocator-set_allocator = λ a s. refl;
  allocator-set_registered = λ r s. refl;
  allocator-clear_global = λ x s. refl;
  registered-set_hook = λ h s. refl;
  registered-set_allocator = λ a s. refl;
  registered-set_registered = λ r s. refl;
}

-- The state of an engine with its timeout hook.
abbrev timed : Slots
timed = record {
  hook_slot = some (other_hook 4 8 1000);
  allocator_slot = other_allocator 1 2;
  registry_slot = none;
  cleared = [];
}

abbrev empty_manager : SandboxManager
empty_manager = record { config = new_config; sandboxed_states = [] }

leave_guard-enter_guard_example :
    let r = leave_guard slots_api 7 (enter_guard slots_api 7 30 (empty_manager, timed)) in
    (r.1.hook_slot ≡ some (other_hook 4 8 1000))
    × (r.1.allocator_slot ≡ other_allocator 1 2)
    × (is_sandboxed 7 r.0 ≡ is_sandboxed 7 empty_manager)
leave_guard-enter_guard_example =
    leave_guard-enter_guard slots_api 7 30 empty_manager timed (omega arith)
