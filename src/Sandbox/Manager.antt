-- ===== src/Sandbox/Manager.antt =====
-- SandboxManager and SandboxGuard of src/sandbox.cpp: applying a sandbox to a Lua state and removing
-- it. The Lua interpreter is an interface; a Lua state is known by its address. A thrown error of the
-- interpreter leaves the functions, and is not modelled.
use Prim.Native.Nat.{bit_or}
use fast_rules.Base.{
  ℕ, ◌≡◌, List, [], ◌∷◌, Bool, true, false, not, Option, none, some, if◌then◌else◌, ◌==◌, ltb,
  nat_eq, ℕ_eq,
}
use fast_rules.Base.Dict.{Dict, lookup, insert, erase}
use fast_rules.Base.Text.{Text, Text_eq}
use fast_rules.Sandbox.{
  SandboxStateData, SandboxConfig, new_state, set_memory_limit, set_instruction_limit, hook_count,
}

-- A hook of a Lua state, with its mask and count: another one, or that of the sandbox.
pub data Hook : Type 0 where
  other_hook : (function mask count : ℕ) → Hook
  sandbox_hook : (mask count : ℕ) → Hook

-- The allocator of a Lua state: another one, or that of the sandbox over its data.
pub data Allocator : Type 0 where
  other_allocator : (function user_data : ℕ) → Allocator
  limiting : (data_address : ℕ) → Allocator

-- What the code uses of the interpreter: the hook, the allocator and the entry of the registry under
-- the key of the sandbox, each of which keeps what was stored in it last, and the globals.
pub record LuaApi (S : Type 0) : Type 0 where
  pub hook : S → Option Hook
  pub allocator : S → Allocator
  pub registered : S → Option ℕ
  pub set_hook : Option Hook → S → S
  pub set_allocator : Allocator → S → S
  pub set_registered : Option ℕ → S → S
  pub clear_global : Text → S → S
  pub hook-set_hook : (h : Option Hook) (s : S) → hook (set_hook h s) ≡ h
  pub hook-set_allocator : (a : Allocator) (s : S) → hook (set_allocator a s) ≡ hook s
  pub hook-set_registered : (r : Option ℕ) (s : S) → hook (set_registered r s) ≡ hook s
  pub hook-clear_global : (x : Text) (s : S) → hook (clear_global x s) ≡ hook s
  pub allocator-set_hook : (h : Option Hook) (s : S) → allocator (set_hook h s) ≡ allocator s
  pub allocator-set_allocator : (a : Allocator) (s : S) → allocator (set_allocator a s) ≡ a
  pub allocator-set_registered :
      (r : Option ℕ) (s : S) → allocator (set_registered r s) ≡ allocator s
  pub allocator-clear_global : (x : Text) (s : S) → allocator (clear_global x s) ≡ allocator s
  pub registered-set_hook : (h : Option Hook) (s : S) → registered (set_hook h s) ≡ registered s
  pub registered-set_allocator :
      (a : Allocator) (s : S) → registered (set_allocator a s) ≡ registered s
  pub registered-set_registered : (r : Option ℕ) (s : S) → registered (set_registered r s) ≡ r

-- The data of a sandboxed state; `address` is where it stands. `orig_alloc` is there once the
-- allocator is installed.
pub record Sandboxed : Type 0 where
  pub address : ℕ
  pub limits : SandboxStateData
  pub orig_alloc : Option Allocator
  pub chained : Option (ℕ × ℕ × ℕ)

pub record SandboxManager : Type 0 where
  pub config : SandboxConfig
  pub sandboxed_states : Dict ℕ Sandboxed

unfoldable pub is_sandboxed : ℕ → SandboxManager → Bool
is_sandboxed lua m = elim (lookup lua m.sandboxed_states) [ none ↦ false | some _ ↦ true ]

abbrev pub chained_of : Option Hook → Option (ℕ × ℕ × ℕ)
chained_of none = none
chained_of (some (other_hook function mask count)) = some (function, mask, count)
chained_of (some (sandbox_hook mask count)) = none

-- The hook that is installed for a limit; the mask of counting hooks is `LUA_MASKCOUNT`, 8.
abbrev pub hook_for : ℕ → Option (ℕ × ℕ × ℕ) → Option Hook
hook_for limit none = if nat_eq limit 0 then none else some (sandbox_hook 8 1000)
hook_for limit (some (function, mask, count)) =
    some (sandbox_hook (bit_or 8 mask) (hook_count count))

-- The hook that is put back.
abbrev pub hook_back : Option (ℕ × ℕ × ℕ) → Option Hook
hook_back none = none
hook_back (some (function, mask, count)) =
    some (other_hook function mask (if ltb 0 count then count else 1000))

module _ {S : Type 0} (api : LuaApi S) where
  unfoldable pub clear_globals : List Text → S → S
  clear_globals [] s = s
  clear_globals (x ∷ xs) s = clear_globals xs (api.clear_global x s)

  -- `setMemoryLimit` and `setInstructionLimit` on the data made for a state.
  abbrev pub limited_data : SandboxConfig → ℕ → S → Sandboxed
  limited_data c address s = record {
    address = address;
    limits =
        set_instruction_limit c.max_instructions (set_memory_limit c.max_memory_bytes new_state);
    orig_alloc = some (api.allocator s);
    chained = chained_of (api.hook s);
  }

  abbrev pub install : SandboxConfig → ℕ → S → S
  install c address s =
      api.set_hook (hook_for c.max_instructions (chained_of (api.hook s)))
        (api.set_allocator (limiting address) (api.set_registered (some address) s))

  abbrev pub restricted : SandboxConfig → S → S
  restricted c s = clear_globals c.restricted_modules (clear_globals c.restricted_functions s)

  -- A new sandbox with its data at `address`.
  unfoldable pub sandbox_new : ℕ → ℕ → SandboxManager × S → SandboxManager × S
  unfolding insert clear_globals
  sandbox_new lua address (m, s) =
      let t = restricted m.config s in
      (
        record m {
          sandboxed_states = insert lua (limited_data m.config address t) m.sandboxed_states;
        },
        install m.config address t,
      )

  -- An entry belongs to the state if the registry of the state points to its data.
  abbrev pub is_genuine : Option Sandboxed → Option ℕ → Bool
  is_genuine (some d) (some address) = d.address == address
  is_genuine _ _ = false

  unfoldable pub apply_sandbox : ℕ → ℕ → SandboxManager × S → SandboxManager × S
  unfolding sandbox_new lookup erase
  apply_sandbox lua address (m, s) =
      if not m.config.enabled
      then (m, s)
      else if is_genuine (lookup lua m.sandboxed_states) (api.registered s)
      then (m, s)
      else sandbox_new lua address (record m { sandboxed_states = erase lua m.sandboxed_states }, s)

  abbrev pub restore_allocator : Option Allocator → S → S
  restore_allocator none s = s
  restore_allocator (some a) s = api.set_allocator a s

  unfoldable pub remove_sandbox : ℕ → SandboxManager × S → SandboxManager × S
  unfolding lookup erase
  remove_sandbox lua (m, s) = elim (lookup lua m.sandboxed_states) [
    | none ↦ (m, s)
    | some d ↦ (
      record m { sandboxed_states = erase lua m.sandboxed_states },
      restore_allocator d.orig_alloc
          (api.set_registered none (api.set_hook (hook_back d.chained) s)),
    )
  ]

  -- The constructor and the destructor of a guard; `was_sandboxed` is what the guard keeps.
  unfoldable pub enter_guard : ℕ → ℕ → SandboxManager × S → Bool × (SandboxManager × S)
  unfolding is_sandboxed apply_sandbox
  enter_guard lua address (m, s) = elim (is_sandboxed lua m) [
    | true ↦ (true, (m, s))
    | false ↦ (false, apply_sandbox lua address (m, s))
  ]

  unfoldable pub leave_guard : ℕ → Bool × (SandboxManager × S) → SandboxManager × S
  unfolding remove_sandbox
  leave_guard lua (was_sandboxed, x) = if was_sandboxed then x else remove_sandbox lua x
