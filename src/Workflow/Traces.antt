-- ===== src/Workflow/Traces.antt =====
-- Workflow::executeWithTrace of src/workflow.cpp, for a workflow that is compiled.
pub mod Accounts
use fast_rules.Base.{
  ℕ, List, [], ◌∷◌, ◌++◌, Bool, true, false, not, ◌&&◌, Option, none, some, if◌then◌else◌, all,
  is_empty,
}
use fast_rules.Base.Int.{negsuc}
use fast_rules.Base.Text.{Text, codes}
use fast_rules.Context.{empty_context, get_result, set_result}
use fast_rules.Parameters.{RuleParameter, Platform}
use fast_rules.Result.{RuleResult, is_success}
use fast_rules.Rule.{Rule, result_key}
use fast_rules.Tracer.{ExecutionTraceStep, ExecutionTracer, start, add_step, record_step, finish}
use fast_rules.Execution.World.{World, LuaEngine, on_context, read_clock}
use fast_rules.Execution.Run.{execute}
use fast_rules.Workflow.Levels.{Result, ok, throw, resolve_execution_order}
use fast_rules.Workflow.Runs.{has_succeeded, handed, add_result}

abbrev pub dependency_step : Rule → Text → Bool → (started ended : ℕ) → ExecutionTraceStep
dependency_step q n success started ended = record {
  rule_name = q.name;
  stage = codes "dependency_check";
  success = success;
  started_at = started;
  ended_at = ended;
  message = some (
      codes "Dependency '"
      ++ n
      ++ (if success then codes "' satisfied" else codes "' failed or not found"));
  dependency_id = some (negsuc 0);
  expression = none;
  action = none;
}

abbrev pub outcome_message : RuleResult → Text
outcome_message res = elim res.exception [
  | some m ↦ m
  | none ↦
      if res.skipped
      then codes "Rule was skipped"
      else if res.success
      then codes "Rule evaluated to true"
      else codes "Rule evaluated to false"
]

abbrev pub execute_step : Rule → RuleResult → (started ended : ℕ) → ExecutionTraceStep
execute_step q res started ended = record {
  rule_name = q.name;
  stage = codes "execute";
  success = is_success res.head;
  started_at = started;
  ended_at = ended;
  message = some (outcome_message res);
  dependency_id = none;
  expression = some q.expression;
  action = some q.action;
}

module _ {E F : Type 0} (platform : Platform F) (lua : LuaEngine E F) where
  abbrev pub Traced : Type 0 → Type 0
  Traced A = ExecutionTracer → World E F → A × ExecutionTracer × World E F

  unfoldable pub trace_execution : Rule → List (RuleParameter F) → Traced (Option RuleResult)
  unfolding execute add_step set_result result_key is_success
  trace_execution q ps t w =
      let started = read_clock platform w in
      let run = execute platform lua q ps started.1 in
      let ended = read_clock platform run.1 in
      (
        handed run.0,
        add_step (execute_step q run.0 started.0 ended.0) t,
        (on_context (set_result (result_key q.info) run.0) ended.1).1,
      )

  -- The dependency is looked up between two readings of the clock.
  unfoldable pub trace_dependency :
      Option Text → Rule → List (RuleParameter F) → Traced (Option RuleResult)
  unfolding trace_execution add_step get_result is_success
  trace_dependency none q ps t w = trace_execution q ps t w
  trace_dependency (some n) q ps t w =
      let success = has_succeeded (get_result n w.context) in
      let started = read_clock platform w in
      let ended = read_clock platform started.1 in
      let t' = add_step (dependency_step q n success started.0 ended.0) t in
      if not success then (none, t', ended.1) else trace_execution q ps t' ended.1

  unfoldable pub trace_rule : Rule → List (RuleParameter F) → Traced (Option RuleResult)
  unfolding trace_dependency record_step
  trace_rule q ps t w =
      let now = read_clock platform w in
      if not q.is_active
      then (
        none,
        record_step now.0 q.name (codes "skip") true (some (codes "Rule is inactive")) none t,
        now.1,
      )
      else trace_dependency q.depends_on_rule_name q ps t w

  unfoldable pub trace_rules : List Rule → List (RuleParameter F) → Traced (List RuleResult)
  unfolding trace_rule
  trace_rules [] ps t w = ([], t, w)
  trace_rules (q ∷ qs) ps t w =
      let first = trace_rule q ps t w in
      let others = trace_rules qs ps first.1 first.2 in
      (add_result first.0 others.0, others.1, others.2)

  -- The tracer is started before the order is resolved, and stays active if that throws.
  unfoldable pub execute_with_trace :
      List Rule → List (RuleParameter F) → Traced (Result (List RuleResult))
  unfolding trace_rules resolve_execution_order start finish is_success
  execute_with_trace rules ps t w =
      let begun = read_clock platform w in
      let t' = start begun.0 t in
      elim (resolve_execution_order rules) [
        | throw e ↦ (throw e, t', begun.1)
        | ok order ↦
            let traced = trace_rules order ps t' (on_context (λ _. empty_context) begun.1).1 in
            let ended = read_clock platform traced.2 in
            (
              ok traced.0,
              finish ended.0 (not (is_empty traced.0) && all (λ r. is_success r.head) traced.0)
                  traced.1,
              ended.1,
            )
      ]
