-- ===== src/Result.antt =====
-- include/fastrules/rule_result.hpp: RuleMetrics, RuleResult and its two success tests. Times are
-- nanoseconds.
pub mod Success
use fast_rules.Base.{ℕ, Bool, true, false, not, ◌&&◌, Option, none, some}
use fast_rules.Base.Int.{ℤ}
use fast_rules.Base.Text.{Text}

pub record RuleMetrics : Type 0 where
  pub evaluation_count : ℕ
  pub failure_count : ℕ
  pub total_execution_time : ℕ
  pub last_executed : ℕ

-- The fields of a result but those of its children. `exception` is the message of the exception.
-- `completedAt` is left out: no code writes it.
pub record Head : Type 0 where
  pub rule_name : Text
  pub rule_id : ℤ
  pub success : Bool
  pub skipped : Bool
  pub exception : Option Text
  pub executed_at : ℕ
  pub metrics : RuleMetrics

-- `childResults`: `cons h kids rest` is a result with its own children, before its siblings.
pub data Results : Type 0 where
  nil : Results
  cons : (head : Head) (kids rest : Results) → Results

pub record RuleResult : Type 0 where
  pub head : Head
  pub open head use *
  pub child_results : Results

abbrev pub is_none {ℓ} : {A : Type ℓ} → Option A → Bool
is_none none = true
is_none (some a) = false

unfoldable pub is_success : Head → Bool
is_success r = r.success && (is_none r.exception && not r.skipped)

-- The loop over the children, each of which is tested with its own children.
unfoldable pub all_fully_successful : Results → Bool
unfolding is_success
all_fully_successful nil = true
all_fully_successful (cons h kids rest) =
    (is_success h && all_fully_successful kids) && all_fully_successful rest

unfoldable pub is_fully_successful : RuleResult → Bool
unfolding all_fully_successful
is_fully_successful r = is_success r.head && all_fully_successful r.child_results
