-- ===== src/Sandbox.antt =====
-- src/sandbox.cpp: the configuration of the sandbox, its allocator, which caps the memory of a Lua
-- state, and its hook, which caps the instructions. The sets of names are lists here. Whether
-- `std::realloc` finds memory is an argument, as is whether the chained hook raises an error.
pub mod Memory
pub mod Instructions
pub mod Manager
pub mod Restore
pub mod Code
use fast_rules.Base.{
  ℕ, zero, suc, ◌+◌, ◌-◌, ◌*◌, ◌%◌, List, [], ◌∷◌, Bool, true, false, not, ◌&&◌, if◌then◌else◌,
  ◌==◌, ltb, leb, nat_eq, ℕ_eq, any, keep, min,
}
use fast_rules.Base.Text.{Text, Text_eq, codes}

-- The counters and limits of one Lua state; a limit of 0 is none.
pub record SandboxStateData : Type 0 where
  pub instruction_count : ℕ
  pub instruction_limit : ℕ
  pub mem_used : ℕ
  pub mem_limit : ℕ

abbrev pub new_state : SandboxStateData
new_state = record { instruction_count = 0; instruction_limit = 0; mem_used = 0; mem_limit = 0 }

-- `memUsed - min(freed, memUsed) + nsize` on 64-bit words.
abbrev pub projected : SandboxStateData → ℕ → ℕ → ℕ
projected d freed nsize =
    (d.mem_used - (if leb freed d.mem_used then freed else d.mem_used) + nsize)
    % 18446744073709551616

abbrev pub released : SandboxStateData → ℕ → SandboxStateData
released d freed = record d {
  mem_used = d.mem_used - (if leb freed d.mem_used then freed else d.mem_used);
}

-- `osize` counts only where a block was there. The result is whether a block is returned.
unfoldable pub sandbox_limit_alloc :
    Bool → Bool → ℕ → ℕ → SandboxStateData → Bool × SandboxStateData
sandbox_limit_alloc available is_null osize nsize d =
    let freed = if is_null then 0 else osize in
    if nat_eq nsize 0
    then (false, released d freed)
    else if not (nat_eq d.mem_limit 0) && ltb d.mem_limit (projected d freed nsize)
    then (false, d)
    else if available
    then (true, record d { mem_used = projected d freed nsize })
    else (false, d)

-- The result is whether an error is raised, by the chained hook or for the limit.
unfoldable pub sandbox_instruction_hook : Bool → SandboxStateData → Bool × SandboxStateData
sandbox_instruction_hook chained_raises d =
    let count = (d.instruction_count + 1000) % 18446744073709551616 in
    if chained_raises
    then (true, d)
    else if nat_eq d.instruction_limit 0
    then (false, d)
    else (ltb d.instruction_limit count, record d { instruction_count = count })

-- What `setMemoryLimit` and `setInstructionLimit` do to the data of a sandboxed state.
unfoldable pub set_memory_limit : ℕ → SandboxStateData → SandboxStateData
set_memory_limit max_bytes d = record d { mem_limit = max_bytes }

unfoldable pub set_instruction_limit : ℕ → SandboxStateData → SandboxStateData
set_instruction_limit max_instructions d = record d {
  instruction_limit = max_instructions;
  instruction_count = 0;
}

-- The count with which the hook is installed: no longer than that of the hook it replaced.
abbrev pub hook_count : ℕ → ℕ
hook_count chained_count =
    if ltb 0 chained_count && ltb chained_count 1000 then chained_count else 1000

pub record SandboxConfig : Type 0 where
  pub restricted_modules : List Text
  pub restricted_functions : List Text
  pub allowed_modules : List Text
  pub allowed_functions : List Text
  pub max_memory_bytes : ℕ
  pub max_instructions : ℕ
  pub enabled : Bool

unfoldable pub new_config : SandboxConfig
new_config = record {
  restricted_modules = codes "os" ∷ codes "io" ∷ codes "debug" ∷ codes "package" ∷ [];
  restricted_functions =
      codes "dofile"
      ∷ codes "loadfile"
      ∷ codes "load"
      ∷ codes "loadstring"
      ∷ codes "require"
      ∷ codes "module"
      ∷ codes "setmetatable"
      ∷ codes "getmetatable"
      ∷ codes "rawget"
      ∷ codes "rawset"
      ∷ codes "rawequal"
      ∷ codes "collectgarbage"
      ∷ codes "gcinfo"
      ∷ codes "newproxy"
      ∷ codes "system"
      ∷ codes "exec"
      ∷ codes "spawn"
      ∷ codes "popen"
      ∷ [];
  allowed_modules = codes "math" ∷ codes "string" ∷ codes "table" ∷ codes "bit32" ∷ [];
  allowed_functions =
      codes "print"
      ∷ codes "type"
      ∷ codes "next"
      ∷ codes "ipairs"
      ∷ codes "pairs"
      ∷ codes "tonumber"
      ∷ codes "tostring"
      ∷ [];
  max_memory_bytes = 1024 * 1024 * 100;
  max_instructions = 1000000;
  enabled = true;
}

abbrev pub holds_name : Text → List Text → Bool
holds_name x names = any (λ y. y == x) names

abbrev pub with_name : Text → List Text → List Text
with_name x names = if holds_name x names then names else x ∷ names

abbrev pub without_name : Text → List Text → List Text
without_name x names = keep (λ y. not (y == x)) names

unfoldable pub add_restricted_module : Text → SandboxConfig → SandboxConfig
add_restricted_module x c = record c { restricted_modules = with_name x c.restricted_modules }

unfoldable pub remove_restricted_module : Text → SandboxConfig → SandboxConfig
remove_restricted_module x c = record c { restricted_modules = without_name x c.restricted_modules }

unfoldable pub is_module_restricted : Text → SandboxConfig → Bool
is_module_restricted x c = holds_name x c.restricted_modules

unfoldable pub add_restricted_function : Text → SandboxConfig → SandboxConfig
add_restricted_function x c = record c { restricted_functions = with_name x c.restricted_functions }

unfoldable pub remove_restricted_function : Text → SandboxConfig → SandboxConfig
remove_restricted_function x c = record c {
  restricted_functions = without_name x c.restricted_functions;
}

unfoldable pub is_function_restricted : Text → SandboxConfig → Bool
is_function_restricted x c = holds_name x c.restricted_functions

unfoldable pub set_enabled : Bool → SandboxConfig → SandboxConfig
set_enabled b c = record c { enabled = b }

unfoldable pub set_max_memory_bytes : ℕ → SandboxConfig → SandboxConfig
set_max_memory_bytes n c = record c { max_memory_bytes = n }

unfoldable pub set_max_instructions : ℕ → SandboxConfig → SandboxConfig
set_max_instructions n c = record c { max_instructions = n }
