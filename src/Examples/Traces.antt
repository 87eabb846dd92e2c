-- ===== src/Examples/Traces.antt =====
-- The trace of two rules, of which the second depends on the first.
use fast_rules.Base.{refl, ◌++◌, [], false, true, map}
use fast_rules.Base.Int.{pos}
use fast_rules.Tracer.{ExecutionTracer}
use fast_rules.Workflow.Traces.{trace_rules}
use fast_rules.Workflow.Traces.Accounts.{AccountsFor, trace_rules-AccountsFor}
use fast_rules.Examples.Runs.{platform, engine, world, order}

abbrev tracer : ExecutionTracer
tracer = record {
  trace = record {
    workflow_id = pos 1;
    started_at = 0;
    ended_at = 0;
    steps = [];
    overall_success = false;
  };
  active = true;
}

trace_rules-AccountsFor_example :
    AccountsFor
      ([] ++ map (λ q. q.name) order)
      (trace_rules platform engine order [] tracer world).1
trace_rules-AccountsFor_example =
    trace_rules-AccountsFor platform engine [] order [] tracer world (refl, refl)
