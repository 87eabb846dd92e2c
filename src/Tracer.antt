-- ===== src/Tracer.antt =====
-- src/execution_tracer.cpp and include/fastrules/execution_tracer.hpp. A call that reads the clock
-- takes the reading as an argument.
use fast_rules.Base.{
  ℕ, ◌+◌, ◌-◌, List, [], ◌∷◌, ◌++◌, Bool, true, false, Option, none, some, if◌then◌else◌, ltb, ◌==◌,
  keep,
}
use fast_rules.Base.Int.{ℤ}
use fast_rules.Base.Text.{Text, Text_eq}

pub record ExecutionTraceStep : Type 0 where
  pub rule_name : Text
  pub stage : Text
  pub success : Bool
  pub started_at : ℕ
  pub ended_at : ℕ
  pub message : Option Text
  pub dependency_id : Option ℤ
  pub expression : Option Text
  pub action : Option Text

pub record ExecutionTrace : Type 0 where
  pub workflow_id : ℤ
  pub started_at : ℕ
  pub ended_at : ℕ
  pub steps : List ExecutionTraceStep
  pub overall_success : Bool

pub record ExecutionTracer : Type 0 where
  pub trace : ExecutionTrace
  pub active : Bool

unfoldable pub start : ℕ → ExecutionTracer → ExecutionTracer
start now t = record { trace = record t.trace { started_at = now }; active = true }

-- Without effect while the tracer is not active.
unfoldable pub add_step : ExecutionTraceStep → ExecutionTracer → ExecutionTracer
add_step step t =
    if t.active
    then record t { trace = record t.trace { steps = t.trace.steps ++ step ∷ [] } }
    else t

unfoldable pub record_step :
    ℕ → (rule_name stage : Text) → Bool → Option Text → Option ℤ → ExecutionTracer → ExecutionTracer
unfolding add_step
record_step now rule_name stage success message dependency_id t =
    add_step
      (record {
        rule_name = rule_name;
        stage = stage;
        success = success;
        started_at = now;
        ended_at = now;
        message = message;
        dependency_id = dependency_id;
        expression = none;
        action = none;
      })
      t

unfoldable pub finish : ℕ → Bool → ExecutionTracer → ExecutionTracer
finish now overall_success t = record {
  trace = record t.trace { ended_at = now; overall_success = overall_success };
  active = false;
}

-- The clock does not run backwards.
abbrev pub duration : ExecutionTraceStep → ℕ
duration s = s.ended_at - s.started_at

unfoldable pub get_steps_for_rule : Text → ExecutionTrace → List ExecutionTraceStep
get_steps_for_rule name t = keep (λ s. s.rule_name == name) t.steps

abbrev pub time_in_stage : Text → List ExecutionTraceStep → ℕ
time_in_stage stage [] = 0
time_in_stage stage (s ∷ ss) =
    if s.stage == stage then duration s + time_in_stage stage ss else time_in_stage stage ss

unfoldable pub get_total_time_in_stage : Text → ExecutionTrace → ℕ
get_total_time_in_stage stage t = time_in_stage stage t.steps

-- `std::max_element`: of several the first.
abbrev pub slowest : ExecutionTraceStep → List ExecutionTraceStep → ExecutionTraceStep
slowest best [] = best
slowest best (s ∷ ss) =
    let keep_best = slowest best ss in
    let take_it = slowest s ss in if ltb (duration best) (duration s) then take_it else keep_best

abbrev pub slowest_of : List ExecutionTraceStep → Option ExecutionTraceStep
slowest_of [] = none
slowest_of (s ∷ ss) = some (slowest s ss)

unfoldable pub get_slowest_step : ExecutionTrace → Option ExecutionTraceStep
get_slowest_step t = slowest_of t.steps
