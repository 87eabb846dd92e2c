-- ===== src/Execution/Run/Sound.antt =====
-- Executing a rule keeps the program well-formed, and its result is sound.
use fast_rules.Base.{ℕ, ℕ_eq, true, false, not, ◌&&◌, Option, none, some, List, ◌==◌, is_empty}
use fast_rules.Base.Text.{codes, Text_eq, to_string}
use fast_rules.Counters.{record_execution_time}
use fast_rules.Parameters.{Platform, RuleParameter}
use fast_rules.Result.{Results, RuleResult, is_success}
use fast_rules.Rule.{Info, Rules, Rule}
use fast_rules.Execution.Cache.{cache_period, find_cached}
use fast_rules.Execution.Key.{build_cache_key}
use fast_rules.Execution.World.{
  World, Action, pure, Outcome, done, raise, LuaEngine, Exception, rate_limit, timeout, rule,
  standard, unknown, cache_of, ask_limiter,
}
use fast_rules.Execution.Run.{
  Flow, returned, fell, caught, new_result, skipped_result, first_failed, check_limits, check_types,
  execute_family, after_limits, try_block, handle, with_metrics, finish, after_try, execute_active,
  execute_new, after_lookup, execute_cached, execute_with, execute_child_rules, execute,
}
use fast_rules.Execution.Run.Ensures.{
  Ensures, Anything, bind-Ensures, if-Ensures, IsSound, AllSound, IsGoodCache, IsWellFormed,
}
use fast_rules.Execution.Run.Caches.{
  All-insert, cache_of-IsGoodCache, IsSoundOption, find_cached-IsGoodCache,
}
use fast_rules.Execution.Run.Steps.{
  IsSoundFlow, failed-IsSound, skipped-IsSound, with_metrics-IsSound, first_failed-none, counted,
  store-IsQuiet, set_failure-IsSound, after_children_sound,
}
use fast_rules.Execution.Run.Quiet.{IsQuiet, ask_limiter-IsQuiet}

module _ {E F : Type 0} (platform : Platform F) (lua : LuaEngine E F) where
  module _ (r : Info) (kids : Rules) (run : Action E F Results) (ps : List (RuleParameter F)) where
    execute_family_sound :
        (res : RuleResult)
        → Ensures IsWellFormed AllSound run
        → Ensures IsWellFormed IsSoundFlow (execute_family platform lua r kids run ps res)
    unfolding execute_family
    execute_family_sound res ok w h =
        let rs = (run w).0 in
        let s = ok w h in
        after_children_sound platform lua r kids ps (record res { child_results = rs })
          (first_failed rs) (first_failed-none rs s.0) _ s.1

    after_limits_sound :
        (res : RuleResult) (limits types : Outcome (Unit {0}))
        → Ensures IsWellFormed AllSound run
        → Ensures IsWellFormed IsSoundFlow
            (after_limits platform lua r kids run ps res limits types)
    unfolding after_limits
    after_limits_sound res (raise e) types ok w h = (tt, h)
    after_limits_sound res (done _) (raise e) ok w h = (tt, h)
    after_limits_sound res (done _) (done _) ok w h = execute_family_sound res ok w h

    check_limits-IsQuiet : IsQuiet (check_limits platform lua r)
    unfolding check_limits
    check_limits-IsQuiet w h =
        let first = ask_limiter platform r.rate_limiter (to_string r.id) w in
        let h' = ask_limiter-IsQuiet platform lua r.rate_limiter (to_string r.id) w h in
        let again =
          if-Ensures Anything (first.0 && (not (is_empty r.name) && not (r.name == to_string r.id)))
            (ask_limiter platform r.rate_limiter r.name) (pure first.0)
            (ask_limiter-IsQuiet platform lua r.rate_limiter r.name) (λ v q. (tt, q)) first.1
            h'.1 in
        (tt, again.1)

    try_block_sound :
        (res : RuleResult)
        → Ensures IsWellFormed AllSound run
        → Ensures IsWellFormed IsSoundFlow (try_block platform lua r kids run ps res)
    unfolding try_block
    try_block_sound res ok =
        bind-Ensures Anything IsSoundFlow (check_limits platform lua r)
          (λ limits.
            after_limits platform lua r kids run ps res limits (check_types platform lua ps))
          check_limits-IsQuiet
          (λ limits _. after_limits_sound res limits (check_types platform lua ps) ok)

    handle-IsSound :
        (e : Exception) (res : RuleResult)
        → Ensures IsWellFormed IsSound (handle platform lua r e res)
    unfolding handle
    handle-IsSound (rate_limit m) res w h =
        (failed-IsSound m res, counted platform lua false false false false true w h)
    handle-IsSound (timeout m) res w h =
        (failed-IsSound m res, counted platform lua false false false true false w h)
    handle-IsSound (rule m) res w h =
        let f = set_failure-IsSound platform lua res m false w h in (f.0, f.1)
    handle-IsSound (standard m) res w h =
        let f = set_failure-IsSound platform lua res m false w h in (f.0, f.1)
    handle-IsSound unknown res w h =
        let f =
          set_failure-IsSound platform lua res (codes "Unknown exception during rule execution")
            false w h in
        (f.0, f.1)

    finish-IsSound :
        (start : ℕ) (res : RuleResult)
        → IsSound res
        → Ensures IsWellFormed IsSound (finish platform lua r ps start res)
    unfolding finish record_execution_time
    finish-IsSound start res s w h =
        let res' = with_metrics start (platform.clock w.readings) res in
        let s' = with_metrics-IsSound start (platform.clock w.readings) res s in
        (s', (store-IsQuiet platform lua r ps res' s' _ h).1)

    after_try-IsSound :
        (start : ℕ) (flow : Flow)
        → IsSoundFlow flow
        → Ensures IsWellFormed IsSound (after_try platform lua r ps start flow)
    unfolding after_try
    after_try-IsSound start (returned res) s w h = (s, h)
    after_try-IsSound start (fell res) s w h = finish-IsSound start res s w h
    after_try-IsSound start (caught e res) s w h =
        bind-Ensures IsSound IsSound (handle platform lua r e res) (finish platform lua r ps start)
          (handle-IsSound e res) (λ res' s'. finish-IsSound start res' s') w h

    execute_active-IsSound :
        (res : RuleResult)
        → Ensures IsWellFormed AllSound run
        → Ensures IsWellFormed IsSound (execute_active platform lua r kids run ps res)
    unfolding execute_active
    execute_active-IsSound res ok w h =
        let start = platform.clock w.readings in
        bind-Ensures IsSoundFlow IsSound (try_block platform lua r kids run ps res)
          (after_try platform lua r ps start) (try_block_sound res ok)
          (λ flow s. after_try-IsSound start flow s) _ h

    execute_new-IsSound :
        Ensures IsWellFormed AllSound run
        → Ensures IsWellFormed IsSound (execute_new platform lua r kids run ps)
    unfolding execute_new
    execute_new-IsSound ok w h =
        let res = new_result r (platform.clock w.readings) in
        if-Ensures IsSound r.is_active (execute_active platform lua r kids run ps res)
          (pure (skipped_result res)) (execute_active-IsSound res ok)
          (λ v q. (skipped-IsSound r (platform.clock w.readings), q)) _ h

    after_lookup-IsSound :
        (o : Option RuleResult)
        → IsSoundOption o
        → Ensures IsWellFormed AllSound run
        → Ensures IsWellFormed IsSound (after_lookup platform lua r kids run ps o)
    unfolding after_lookup
    after_lookup-IsSound none s ok w h = execute_new-IsSound ok w h
    after_lookup-IsSound (some res) s ok w h =
        (s, counted platform lua (is_success res.head) false true false false w h)

    execute_cached-IsSound :
        (period : Option ℕ)
        → Ensures IsWellFormed AllSound run
        → Ensures IsWellFormed IsSound (execute_cached platform lua period r kids run ps)
    unfolding execute_cached
    execute_cached-IsSound none ok w h = execute_new-IsSound ok w h
    execute_cached-IsSound (some period) ok w h =
        let now = platform.clock w.readings in
        let key = build_cache_key platform r ps in
        let found = find_cached now key (cache_of r.self w) in
        let good =
          find_cached-IsGoodCache now key (cache_of r.self w) (cache_of-IsGoodCache r.self w h) in
        after_lookup-IsSound found.0 good.0 ok _
          (h.0, All-insert IsGoodCache r.self found.1 w.caches good.1 h.1)

    execute_with-IsSound :
        Ensures IsWellFormed AllSound run
        → Ensures IsWellFormed IsSound (execute_with platform lua r kids run ps)
    unfolding execute_with
    execute_with-IsSound ok = execute_cached-IsSound (cache_period r.cache_duration) ok

  execute_child_rules_sound :
      (rs : Rules) (ps : List (RuleParameter F))
      → Ensures IsWellFormed AllSound (execute_child_rules platform lua rs ps)
  unfolding execute_child_rules
  execute_child_rules_sound Rules.nil ps w h = (tt, h)
  execute_child_rules_sound (Rules.cons r kids rest) ps w h =
      let one =
        execute_with-IsSound r kids (execute_child_rules platform lua kids ps) ps
          (execute_child_rules_sound kids ps) w h in
      let others = execute_child_rules_sound rest ps _ one.1 in ((one.0, others.0), others.1)

  -- Whatever the engine does, executing a rule keeps a well-formed program well-formed: the counters
  -- stay balanced, no cache outgrows 1024 entries, and every cached result is sound. The result that
  -- is returned, cached or not, is itself sound: if it counts as a success, then so does every
  -- result below it.
  pub execute-IsSound :
      (q : Rule) (ps : List (RuleParameter F)) (w : World E F)
      → IsWellFormed w
      → IsSound (execute platform lua q ps w).0 × IsWellFormed (execute platform lua q ps w).1
  unfolding execute
  execute-IsSound q ps =
      execute_with-IsSound q.info q.child_rules (execute_child_rules platform lua q.child_rules ps)
        ps (execute_child_rules_sound q.child_rules ps)
