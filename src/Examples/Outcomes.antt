-- ===== src/Examples/Outcomes.antt =====
-- A result whose child failed.
use fast_rules.Base.{◌≡◌, refl, true, false, [], none}
use fast_rules.Base.Int.{pos}
use fast_rules.Result.{Head, RuleResult, nil, cons, is_fully_successful}

abbrev passed : Head
passed = record {
  rule_name = [];
  rule_id = pos 1;
  success = true;
  skipped = false;
  exception = none;
  executed_at = 5;
  metrics = record {
    evaluation_count = 1;
    failure_count = 0;
    total_execution_time = 3;
    last_executed = 8;
  };
}

abbrev with_failed_child : RuleResult
with_failed_child = record {
  head = passed;
  child_results = cons (record passed { success = false }) nil nil;
}

not_fully : is_fully_successful with_failed_child ≡ false
unfolding is_fully_successful
not_fully = refl
