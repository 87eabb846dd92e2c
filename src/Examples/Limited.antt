-- ===== src/Examples/Limited.antt =====
-- A sandbox with limits, and the caches of compiled expressions.
use fast_rules.Base.{
  ◌≤◌, ◌≡◌, refl, List, [], ◌∷◌, true, false, not, ◌&&◌, ◌||◌, Option, none, some, arith, ltb,
  nat_eq, length,
}
use fast_rules.Base.Text.{Text, codes}
use fast_rules.Sandbox.{
  SandboxStateData, new_state, sandbox_limit_alloc, sandbox_instruction_hook, set_memory_limit,
  set_instruction_limit,
}
use fast_rules.Sandbox.Memory.{Reach, begin, next, allocates, frees, IsCapped, Reach-IsCapped}
use fast_rules.Sandbox.Instructions.{after_hooks, after_hooks-raises}
use fast_rules.Base.Search.{to_lower_ascii, is_identifier_char}
use fast_rules.Sandbox.Code.{dangerous_names, search_names}
use fast_rules.Aot.{new_expression_cache, get_or_compile_expression, make_space}
use fast_rules.Base.Dict.{lookup, insert}
use fast_rules.Aot.Requests.{Request, ask, after_requests, AreAnswered, otherwise, repeated_request}
use fast_rules.Aot.Requests.Served.{after_requests-AreAnswered}

-- A block of 60 bytes is granted, and one of 50 bytes more is not.
abbrev limited : SandboxStateData
limited = set_memory_limit 100 new_state

first_block : SandboxStateData
unfolding sandbox_limit_alloc set_memory_limit
first_block = (sandbox_limit_alloc true true 0 60 limited).1

one_block : Reach (8 ∷ []) limited first_block (60 ∷ 8 ∷ [])
unfolding sandbox_limit_alloc set_memory_limit first_block
one_block = next begin (allocates limited (8 ∷ []) true 0 60 (omega arith) (omega arith))

-- An older block of 8 bytes is freed, which lowers the counter below the size of the other block.
after_older : SandboxStateData
unfolding sandbox_limit_alloc first_block
after_older = (sandbox_limit_alloc true false 8 0 first_block).1

older_freed : Reach (8 ∷ []) limited after_older (60 ∷ [])
unfolding sandbox_limit_alloc after_older
older_freed = next one_block (frees first_block (60 ∷ []) [] true 8)

refused : (sandbox_limit_alloc true true 0 50 first_block).0 ≡ false
unfolding sandbox_limit_alloc set_memory_limit first_block
refused = refl

Reach-IsCapped_example : IsCapped 100 (8 ∷ []) after_older (60 ∷ [])
Reach-IsCapped_example = Reach-IsCapped 100 (8 ∷ []) older_freed

after_hooks-raises_example :
    (sandbox_instruction_hook false
      (after_hooks (false ∷ true ∷ false ∷ []) (set_instruction_limit 2500 new_state))).0
    ≡ (false || (not (nat_eq 2500 0) && ltb 2500 3000))
after_hooks-raises_example =
    after_hooks-raises 2500 (false ∷ true ∷ false ∷ []) false new_state (omega arith)

-- Two functions, of which the first refuses the empty text.
abbrev compiler : Text → Option Text
compiler [] = none
compiler (c ∷ s) = some (c ∷ s)

abbrev other_compiler : Text → Option Text
other_compiler s = some (codes "other")

abbrev request : Text → (Text → Option Text) → Request
request e f = record { victim = 0; expression = e; compile = f }

abbrev requests : List Request
requests =
    request (codes "x") compiler ∷ request [] compiler ∷ request (codes "x") other_compiler ∷ []

-- The second function is not asked for the text that the first one has compiled.
kept_text :
    (ask (request (codes "x") other_compiler) (after_requests new_expression_cache requests)).0
    ≡ some (codes "x")
unfolding get_or_compile_expression make_space lookup insert
kept_text = refl

after_requests-AreAnswered_example :
    AreAnswered [] new_expression_cache requests
    × (length (after_requests new_expression_cache requests).cache ≤ 1000)
    × (repeated_request
          (request [] compiler)
          0
          other_compiler
          (after_requests new_expression_cache requests)
        ≡ otherwise
            (ask (request [] compiler) (after_requests new_expression_cache requests)).0
            (some (codes "other")))
after_requests-AreAnswered_example =
    after_requests-AreAnswered requests (request [] compiler) 0 other_compiler

-- All texts compile to one bytecode, so that no two with one hash differ.
abbrev one_code : Text → Option Text
one_code s = some (codes "code")

-- A forbidden name within a word is let through, and one that stands alone is not.
payload : search_names dangerous_names false (codes "payload = 1") ≡ none
unfolding search_names to_lower_ascii is_identifier_char
payload = refl

call_of_load : search_names dangerous_names false (codes "x = Load(y)") ≡ some (codes "Load")
unfolding search_names to_lower_ascii is_identifier_char
call_of_load = refl
