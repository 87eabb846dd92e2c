-- ===== src/Lib.antt =====
-- FastRules: a rule engine in C++ that evaluates Lua expressions and actions.
--
-- A rule holds an expression, an action, child rules, and the name of a rule it depends on. Executing
-- a rule asks the rate limiter, checks the types of the parameters, executes the children, evaluates
-- the expression and runs the action; its result goes into the context of the run and, if the rule
-- caches, into its cache. A workflow orders its rules by their dependencies and runs them, passing
-- over the rules whose dependency did not succeed. The files model:
-- - Base: lists, bytes, dictionaries and numbers that the other files share.
-- - Rule (include/fastrules/rule.hpp): the data of a rule and of its children. Rule/Builder is
--   Rule::Builder, the factories and setTimeout of src/rule.cpp; following the dependencies runs on
--   fuel, two more than the rules.
-- - Result (include/fastrules/rule_result.hpp, RuleResult::isFullySuccessful of src/rule.cpp).
-- - Context (src/rule_context.cpp), Counters (src/performance_counters.cpp): what a run shares. The
--   counters are 64-bit words that wrap around.
-- - Parameters (RuleParameter, src/parameter_validator.cpp): values with their C++ types. The type of
--   the floating-point numbers, the names and hash codes of types, and the clock are parameters, the
--   record Platform. Parameters/Names is the check by the name of a type.
-- - Limiter (src/rate_limiter.cpp): the sliding windows of RateLimiter. A call takes its clock
--   readings as arguments. Limiter/Window is about one window, Limiter/Calls and
--   Limiter/Bounds are about histories of calls.
-- - Execution (src/rule.cpp). World: the state and the actions on it, and the interface to the Lua
--   engine, whose operations are parameters: any outcome, exception and next state of the engine.
--   A script reads the context and does not write it. Key: buildCacheKey and sourceFingerprint.
--   Cache: storeInCache, the lookup and invalidateCache. Compile: compile and the references to
--   compiled chunks. Run: execute, with its handlers and the code behind them; Run/Try is its try
--   block.
-- - Workflow/Levels (src/workflow.cpp): buildDependencyLevels and resolveExecutionOrder. The loop
--   runs on fuel, one more than the rules of the map; each round takes a rule out of the map.
-- - Workflow/Compilation (src/workflow.cpp): buildCompilationLevels. Pointers are addresses. The loop
--   runs on fuel, one more than the rules; each round takes a rule out of `remaining`.
--   Workflow/Parallel is the part of compileParallel that compiles the levels with threads: a schedule
--   says which thread takes its next atomic step, and which calls throw. A call for a rule compiles its
--   children too; only the calls that the threads make are recorded.
-- - Workflow/Runs (src/workflow.cpp): execute and executeStreaming of a compiled workflow. `drain` is
--   a consumer of the stream.
-- - Tracer (src/execution_tracer.cpp) and Workflow/Traces (executeWithTrace of src/workflow.cpp).
-- - Expression (src/expression_validator.cpp): ExpressionValidator. The search for a pattern runs
--   on fuel above the length of the text; each round moves on by a character.
-- - Input (src/input_validator.cpp): LuaExpressionValidator, the checks of an expression that comes
--   from outside, with the messages it throws. Input/Brackets is about its brackets; Input/Parameter is
--   ParameterValidator with its SecurityConfig.
-- - Versioning (src/rule_versioning.cpp): the version histories, the rollback and the manager of the
--   histories. The printing of a time is a parameter. Base/Parse is std::stoi.
-- - Dependency (src/rule.cpp): hasCircularDependency and getDependencyChain. The walks run on fuel,
--   one more than the rules; each round visits another rule. The loops end at the id 0, which is the
--   default id of a rule, and so do the steps of Dependency/Path. Dependency/Chain is about the chain.
-- - Validation: the search for cycles of Rule::validate (src/rule.cpp) and of
--   Workflow::checkCircularDependencies (src/workflow.cpp), on fuel, one more than the rules; each
--   recursive call visits another rule. Validation/Rules is the rest of Rule::validate, and
--   Validation/Workflows is Workflow::validate.
-- - Json (extensions/json/src/json_loader.cpp): JsonLoader, over an interface to the JSON library. The
--   limit on the nesting bounds the recursion.
-- - Pools (include/fastrules/memory_pool.hpp, src/memory_pool.cpp): the pools of objects, with a step
--   relation of their users, who can destroy an object that they hold without releasing it.
-- - Engines (include/fastrules/engine_pool.hpp): the stack of free engines without locks. Each access
--   to the shared head is a step of its own, and a run is any interleaving of them.
-- - Queue (include/fastrules/work_stealing_queue.hpp, simple_work_stealing_queue.hpp): the circular
--   buffer of tasks, which grows, and the deque that the thread pool uses.
-- - Sandbox (src/sandbox.cpp): the limits on memory and instructions. The allocator is installed on a
--   Lua state that holds blocks already, which it does not count. Sandbox/Manager is the guard of
--   the globals, over an interface to the Lua interpreter; Sandbox/Code is validateCode.
-- - Aot (src/aot_compiler.cpp): AotCompiler and LuaExpressionCache, the caches of compiled
--   expressions. The compilation of AotCompiler and the hash are parameters; each call of
--   LuaExpressionCache brings its own function. Aot/Requests is about histories of such calls.
-- - Workflow/Shape (src/workflow.cpp): getAllActions, toGraph and the builder.
-- - Examples: concrete inputs.
--
-- Locks make each modelled operation one step, but for Engines and Workflow/Parallel, where each access
-- to the shared state is a step. Logging is left out,
-- since no result depends on it. Not modelled: the Lua engine and its backend, the parallel
-- execution of workflows, the pool of threads and timers, the bindings for other
-- languages, and the other stores of rules.
pub mod Base
pub mod Limiter
pub mod Rule
pub mod Parameters
pub mod Context
pub mod Counters
pub mod Execution
pub mod Tracer
pub mod Expression
pub mod Input
pub mod Versioning
pub mod Pools
pub mod Engines
pub mod Queue
pub mod Dependency
pub mod Sandbox
pub mod Aot
pub mod Validation
pub mod Json
pub mod Result
pub mod Workflow
pub mod Examples
