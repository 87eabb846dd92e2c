-- ===== src/Examples/Caching.antt =====
-- A cache, and typed parameters.
use fast_rules.Base.{
  refl, ◌≤◌, ◌≡◌, [], ◌∷◌, true, false, none, some, length, arith, if◌then◌else◌, ltb,
}
use fast_rules.Base.Int.{pos}
use fast_rules.Base.Text.{codes}
use fast_rules.Result.{RuleResult, nil}
use fast_rules.Parameters.{Platform, RuleParameter, double_type, int_value, validate_types}
use fast_rules.Parameters.Names.{value_matches_type}
use fast_rules.Parameters.Agreement.{number_name, named-validate_types}
use fast_rules.Execution.Cache.{
  new_cache, max_cache_entries, store_in_cache, find_cached, invalidate_cache,
}
use fast_rules.Execution.Cache.Bounds.{length-store_in_cache-le, find_cached-store_in_cache}

abbrev result : RuleResult
result = record {
  head = record {
    rule_name = codes "r";
    rule_id = pos 1;
    success = true;
    skipped = false;
    exception = none;
    executed_at = 0;
    metrics = record {
      evaluation_count = 1;
      failure_count = 0;
      total_execution_time = 1;
      last_executed = 1;
    };
  };
  child_results = nil;
}

length-store_in_cache-le_example :
    length (store_in_cache 5 10 (codes "1|") result new_cache).entries ≤ max_cache_entries
length-store_in_cache-le_example =
    length-store_in_cache-le 5 10 (codes "1|") result new_cache (omega arith)

find_cached-store_in_cache_example :
    ((find_cached 7 (codes "1|") (store_in_cache 5 10 (codes "1|") result new_cache)).0
      ≡ (if ltb 7 15 then some result else none))
    × ((find_cached 7
          (codes "1|")
          (invalidate_cache (store_in_cache 5 10 (codes "1|") result new_cache)).1).0
        ≡ none)
find_cached-store_in_cache_example = find_cached-store_in_cache 5 10 7 (codes "1|") result new_cache

abbrev platform : Platform (Unit {0})
platform = record {
  type_name = λ t. [];
  hash_code = λ t. 0;
  print_float = λ x. [];
  hash = length;
  clock = λ n. n;
}

-- An int that is declared as a double.
abbrev promoted : RuleParameter (Unit {0})
promoted = record {
  name = codes "x";
  value = some (int_value (pos 3));
  declared = some double_type;
}

promoted_matches : value_matches_type 0 1 2 (codes "number") promoted.value ≡ true
unfolding value_matches_type
promoted_matches = refl

named-validate_types_example : validate_types platform (promoted ∷ []) ≡ none
named-validate_types_example =
    named-validate_types 0 1 2 platform (promoted ∷ [])
      ((codes "number", double_type, number_name, refl, promoted_matches), tt)
