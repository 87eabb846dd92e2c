-- ===== src/Execution/Run/Try.antt =====
-- The `try` block of Rule::execute of src/rule.cpp, with the functions it calls. The result is a local
-- variable, so the steps pass it on.
use fast_rules.Base.{
  ℕ, ◌-◌, List, ◌++◌, Bool, true, false, not, ◌&&◌, Option, none, some, if◌then◌else◌, ◌==◌,
  is_empty,
}
use fast_rules.Base.Int.{ℤ, ℤ_eq, negsuc}
use fast_rules.Base.Text.{Text, Text_eq, codes, to_string}
use fast_rules.Context.{RuleContext, set_result}
use fast_rules.Counters.{record_execution}
use fast_rules.Parameters.{Value, RuleParameter, Platform, validate_types}
use fast_rules.Result.{Head, Results, nil, cons, RuleResult, is_success}
use fast_rules.Rule.{Info, Rules, result_key, shown_name}
use fast_rules.Execution.Cache.{cache_period, store_in_cache}
use fast_rules.Execution.Compile.{get_expression_ref, get_action_ref}
use fast_rules.Execution.Key.{build_cache_key}
use fast_rules.Execution.World.{
  Exception, rate_limit, standard, Outcome, done, raise, LuaEngine, Action, ◌>>=◌, ◌>>◌, pure, next,
  on_context, count, cache_of, put_cache, ask_engine, read_clock, ask_limiter,
}

-- The result before anything has run.
abbrev pub new_result : Info → ℕ → RuleResult
new_result r executed_at = record {
  head = record {
    rule_name = r.name;
    rule_id = r.id;
    success = false;
    skipped = false;
    exception = none;
    executed_at = executed_at;
    metrics = record {
      evaluation_count = 0;
      failure_count = 0;
      total_execution_time = 0;
      last_executed = 0;
    };
  };
  child_results = nil;
}

abbrev pub failed_head : Text → Head → Head
failed_head message h = record h { success = false; exception = some message }

abbrev pub failed_result : Text → RuleResult → RuleResult
failed_result message res = record res { head = failed_head message res.head }

abbrev pub skipped_result : RuleResult → RuleResult
skipped_result res = record res { head = record res.head { skipped = true } }

abbrev pub with_metrics : (start end : ℕ) → RuleResult → RuleResult
with_metrics start end res = record res {
  head = record res.head {
    metrics = record {
      evaluation_count = 1;
      failure_count = if not res.success then 1 else 0;
      total_execution_time = end - start;
      last_executed = end;
    };
  };
}

-- How the `try` block ends: by a `return`, at its end, or by an exception. The result is the local
-- variable as it is then.
pub data Flow : Type 0 where
  returned fell : RuleResult → Flow
  caught : Exception → RuleResult → Flow

-- The results of the children, under the keys of the children.
unfoldable pub set_child_results :
    {F : Type 0} → Rules → Results → RuleContext (Value F) → RuleContext (Value F)
unfolding set_result result_key
set_child_results Rules.nil rs c = c
set_child_results (Rules.cons r kids rest) nil c = c
set_child_results (Rules.cons r kids rest) (cons h below rs) c =
    set_child_results rest rs
      (set_result (result_key r) (record { head = h; child_results = below }) c)

unfoldable pub first_failed : Results → Option Head
unfolding is_success
first_failed nil = none
first_failed (cons h below rs) = if is_success h then first_failed rs else some h

module _ {E F : Type 0} (platform : Platform F) (lua : LuaEngine E F) where
  abbrev pub evaluate_chunk : Info → List (RuleParameter F) → ℤ → Action E F (Outcome Bool)
  evaluate_chunk r ps ref w =
      if ref == negsuc 0
      then (done true, w)
      else ask_engine (lua.evaluate_expression ref ps w.context r.timeout) w

  unfoldable pub evaluate_expression :
      Info → Rules → List (RuleParameter F) → Action E F (Outcome Bool)
  unfolding get_expression_ref
  evaluate_expression r kids ps =
      get_expression_ref platform lua r kids >>= next (evaluate_chunk r ps)

  abbrev pub execute_chunk : Info → List (RuleParameter F) → ℤ → Action E F (Outcome (Unit {0}))
  execute_chunk r ps ref w =
      if ref == negsuc 0
      then (done tt, w)
      else ask_engine (lua.execute_action ref ps w.context r.timeout) w

  unfoldable pub execute_action :
      Info → Rules → List (RuleParameter F) → Action E F (Outcome (Unit {0}))
  unfolding get_action_ref
  execute_action r kids ps = get_action_ref platform lua r kids >>= next (execute_chunk r ps)

  unfoldable pub store_for :
      Option ℕ → Info → List (RuleParameter F) → RuleResult → Action E F (Unit {0})
  unfolding store_in_cache build_cache_key
  store_for none r ps res = pure tt
  store_for (some period) r ps res = read_clock platform >>= λ now w.
      put_cache r.self
        (store_in_cache now period (build_cache_key platform r ps) res (cache_of r.self w)) w

  -- `storeInCache`.
  unfoldable pub store : Info → List (RuleParameter F) → RuleResult → Action E F (Unit {0})
  unfolding cache_period
  store r ps res = store_for (cache_period r.cache_duration) r ps res

  unfoldable pub set_failure : RuleResult → Text → Bool → Action E F RuleResult
  unfolding record_execution
  set_failure res message was_cached = do
    count (
        if not res.skipped
        then record_execution false false was_cached false false
        else record_execution false true false false false)
    pure (failed_result message res)

  -- `throw RateLimitException` where the limiter refuses the id or the name.
  unfoldable pub check_limits : Info → Action E F (Outcome (Unit {0}))
  unfolding ask_limiter shown_name to_string
  check_limits r = do
    by_id ← ask_limiter platform r.rate_limiter (to_string r.id)
    allowed ←
        if by_id && (not (is_empty r.name) && not (r.name == to_string r.id))
        then ask_limiter platform r.rate_limiter r.name
        else pure by_id
    pure (
        if allowed
        then done tt
        else raise
            (rate_limit (codes "Rate limit exceeded for rule '" ++ shown_name r ++ codes "'")))

  unfoldable pub check_types : List (RuleParameter F) → Outcome (Unit {0})
  unfolding validate_types
  check_types ps = elim (validate_types platform ps) [
    | none ↦ done tt
    | some message ↦ raise (standard message)
  ]

  -- A failure that returns at once.
  unfoldable pub fail_early : Info → List (RuleParameter F) → RuleResult → Text → Action E F Flow
  unfolding set_failure store set_result result_key
  fail_early r ps res message = do
    failure ← set_failure res message false
    store r ps failure
    on_context (set_result (result_key r) failure)
    pure (returned failure)

  unfoldable pub after_action : RuleResult → Outcome (Unit {0}) → Action E F Flow
  unfolding record_execution
  after_action res (raise e) = pure (caught e res)
  after_action res (done _) = do
    count (record_execution true false false false false)
    pure (fell (record res { head = record res.head { success = true } }))

  unfoldable pub after_expression :
      Info → Rules → List (RuleParameter F) → RuleResult → Outcome Bool → Action E F Flow
  unfolding fail_early execute_action after_action
  after_expression r kids ps res (raise e) = pure (caught e res)
  after_expression r kids ps res (done false) =
      fail_early r ps res (codes "Expression evaluated to false")
  after_expression r kids ps res (done true) = do
    acted ← if is_empty r.action then pure (done tt) else execute_action r kids ps
    after_action res acted

  unfoldable pub evaluate_own : Info → Rules → List (RuleParameter F) → RuleResult → Action E F Flow
  unfolding evaluate_expression after_expression
  evaluate_own r kids ps res = do
    passed ← if is_empty r.expression then pure (done true) else evaluate_expression r kids ps
    after_expression r kids ps res passed

  unfoldable pub after_children :
      Info → Rules → List (RuleParameter F) → RuleResult → Option Head → Action E F Flow
  unfolding fail_early evaluate_own
  after_children r kids ps res none = evaluate_own r kids ps res
  after_children r kids ps res (some h) =
      fail_early r ps res (codes "Child rule " ++ h.rule_name ++ codes " failed")

  -- `run` executes the children.
  unfoldable pub execute_family :
      Info → Rules → Action E F Results → List (RuleParameter F) → RuleResult → Action E F Flow
  unfolding set_child_results first_failed after_children
  execute_family r kids run ps res = do
    rs ← run
    on_context (set_child_results kids rs)
    after_children r kids ps (record res { child_results = rs }) (first_failed rs)

  unfoldable pub after_limits :
      Info
      → Rules
      → Action E F Results
      → List (RuleParameter F)
      → RuleResult
      → Outcome (Unit {0})
      → Outcome (Unit {0})
      → Action E F Flow
  unfolding execute_family
  after_limits r kids run ps res (raise e) types = pure (caught e res)
  after_limits r kids run ps res (done _) (raise e) = pure (caught e res)
  after_limits r kids run ps res (done _) (done _) = execute_family r kids run ps res

  unfoldable pub try_block :
      Info → Rules → Action E F Results → List (RuleParameter F) → RuleResult → Action E F Flow
  unfolding check_limits check_types after_limits
  try_block r kids run ps res = do
    limits ← check_limits r
    after_limits r kids run ps res limits (check_types ps)
