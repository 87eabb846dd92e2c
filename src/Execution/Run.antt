-- ===== src/Execution/Run.antt =====
-- Rule::execute of src/rule.cpp, with the functions it calls. Every exception of the `try` block is
-- caught there, so executing a rule returns a result.
pub mod Try
pub mod Ensures
pub mod Caches
pub mod Quiet
pub mod Steps
pub mod Sound
pub mod Posted
unfoldable pub use Try.*
use fast_rules.Base.{
  ℕ, ◌-◌, List, [], ◌∷◌, ◌++◌, Bool, true, false, not, ◌&&◌, Option, none, some, if◌then◌else◌,
  ◌==◌, is_empty,
}
use fast_rules.Base.Int.{ℤ, ℤ_eq, pos, negsuc}
use fast_rules.Base.Text.{Text, Text_eq, codes, to_string}
use fast_rules.Context.{RuleContext, set_result, set_last_error}
use fast_rules.Counters.{record_execution, record_execution_time}
use fast_rules.Parameters.{Value, RuleParameter, Platform, validate_types}
use fast_rules.Result.{Head, Results, nil, cons, RuleResult, is_success}
use fast_rules.Rule.{Info, Rules, Rule, result_key, shown_name}
use fast_rules.Execution.Cache.{Cache, cache_period, store_in_cache, find_cached, invalidate_cache}
use fast_rules.Execution.Compile.{get_expression_ref, get_action_ref}
use fast_rules.Execution.Key.{build_cache_key}
use fast_rules.Execution.World.{
  Exception, rate_limit, timeout, rule, standard, unknown, Outcome, done, raise, LuaEngine, World,
  Action, ◌>>=◌, ◌>>◌, pure, next, on_context, count, cache_of, put_cache, ask_engine, read_clock,
  ask_limiter,
}

module _ {E F : Type 0} (platform : Platform F) (lua : LuaEngine E F) where
  -- The `catch` handlers.
  unfoldable pub handle : Info → Exception → RuleResult → Action E F RuleResult
  unfolding set_failure record_execution set_last_error result_key
  handle r (rate_limit m) res = do
    on_context (set_last_error (result_key r) (codes "Rate limit exceeded: " ++ m))
    count (record_execution false false false false true)
    pure (failed_result m res)
  handle r (timeout m) res = do
    on_context (set_last_error (result_key r) (codes "Timeout: " ++ m))
    count (record_execution false false false true false)
    pure (failed_result m res)
  handle r (rule m) res = do
    failure ← set_failure platform lua res m false
    on_context (set_last_error (result_key r) m)
    pure failure
  handle r (standard m) res = do
    failure ← set_failure platform lua res m false
    on_context (set_last_error (result_key r) m)
    pure failure
  handle r unknown res = do
    failure ← set_failure platform lua res (codes "Unknown exception during rule execution") false
    on_context (set_last_error (result_key r) (codes "Unknown exception"))
    pure failure

  -- The code behind the `try` statement. The clock does not run backwards, so `end - start` is the
  -- difference.
  unfoldable pub finish : Info → List (RuleParameter F) → ℕ → RuleResult → Action E F RuleResult
  unfolding store set_result result_key record_execution_time
  finish r ps start res = do
    end ← read_clock platform
    count (record_execution_time (end - start))
    on_context (set_result (result_key r) (with_metrics start end res))
    store platform lua r ps (with_metrics start end res)
    pure (with_metrics start end res)

  unfoldable pub after_try : Info → List (RuleParameter F) → ℕ → Flow → Action E F RuleResult
  unfolding handle finish
  after_try r ps start (returned res) = pure res
  after_try r ps start (fell res) = finish r ps start res
  after_try r ps start (caught e res) = handle r e res >>= finish r ps start

  unfoldable pub execute_active :
      Info
      → Rules
      → Action E F Results
      → List (RuleParameter F)
      → RuleResult
      → Action E F RuleResult
  unfolding try_block after_try
  execute_active r kids run ps res = do
    start ← read_clock platform
    flow ← try_block platform lua r kids run ps res
    after_try r ps start flow

  -- The code behind the cache lookup.
  unfoldable pub execute_new :
      Info → Rules → Action E F Results → List (RuleParameter F) → Action E F RuleResult
  unfolding execute_active
  execute_new r kids run ps = do
    executed_at ← read_clock platform
    if r.is_active
        then execute_active r kids run ps (new_result r executed_at)
        else pure (skipped_result (new_result r executed_at))

  unfoldable pub after_lookup :
      Info
      → Rules
      → Action E F Results
      → List (RuleParameter F)
      → Option RuleResult
      → Action E F RuleResult
  unfolding execute_new record_execution is_success
  after_lookup r kids run ps none = execute_new r kids run ps
  after_lookup r kids run ps (some res) = do
    count (record_execution (is_success res.head) false true false false)
    pure res

  -- The clock is read whether or not there is an entry.
  unfoldable pub execute_cached :
      Option ℕ → Info → Rules → Action E F Results → List (RuleParameter F) → Action E F RuleResult
  unfolding find_cached build_cache_key execute_new after_lookup
  execute_cached none r kids run ps = execute_new r kids run ps
  execute_cached (some _) r kids run ps = read_clock platform >>= λ now w.
      let found = find_cached now (build_cache_key platform r ps) (cache_of r.self w) in
      (put_cache r.self found.1 >> after_lookup r kids run ps found.0) w

  unfoldable pub execute_with :
      Info → Rules → Action E F Results → List (RuleParameter F) → Action E F RuleResult
  unfolding cache_period
  execute_with r kids run ps = execute_cached (cache_period r.cache_duration) r kids run ps

  -- `executeChildRules`.
  unfoldable pub execute_child_rules : Rules → List (RuleParameter F) → Action E F Results
  unfolding execute_with
  execute_child_rules Rules.nil ps = pure nil
  execute_child_rules (Rules.cons r kids rest) ps = do
    res ← execute_with r kids (execute_child_rules kids ps) ps
    others ← execute_child_rules rest ps
    pure (cons res.head res.child_results others)

  unfoldable pub execute : Rule → List (RuleParameter F) → Action E F RuleResult
  unfolding execute_with execute_child_rules
  execute q ps = execute_with q.info q.child_rules (execute_child_rules q.child_rules ps) ps

  unfoldable pub invalidate : Info → Action E F ℤ
  unfolding invalidate_cache
  invalidate r w = let c = invalidate_cache (cache_of r.self w) in (c.0, (put_cache r.self c.1 w).1)
