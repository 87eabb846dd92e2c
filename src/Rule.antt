-- ===== src/Rule.antt =====
-- The data of a rule: include/fastrules/rule.hpp, class Rule and struct RuleParameter.
pub mod Builder
pub mod Checked
pub mod Back
use fast_rules.Base.{ℕ, Bool, Option, [], ◌∷◌, ◌==◌, if◌then◌else◌}
use fast_rules.Base.Int.{ℤ}
use fast_rules.Base.Text.{Text, Text_eq, to_string}

-- The public fields of a rule object but its children. `self` is the address of the object, by
-- which its private state (the cache, the compiled chunks) is kept; `rate_limiter` is the address of
-- the shared limiter. Durations are milliseconds.
pub record Info : Type 0 where
  pub self : ℕ
  pub id : ℤ
  pub name : Text
  pub description : Text
  pub expression : Text
  pub action : Text
  pub priority : ℤ
  pub is_active : Bool
  pub timeout : Option ℤ
  pub cache_duration : Option ℤ
  pub depends_on_rule_name : Option Text
  pub rate_limiter : Option ℕ

-- `childRules`: no pointer in it is null, and no rule is its own descendant. `cons i kids rest` is
-- the child with the fields `i` and the children `kids`, before its siblings `rest`.
pub data Rules : Type 0 where
  nil : Rules
  cons : (info : Info) (kids rest : Rules) → Rules

pub record Rule : Type 0 where
  pub info : Info
  pub open info use *
  pub child_rules : Rules

-- `resultKey`: an unnamed rule is known by `#<id>`.
unfoldable pub result_key : Info → Text
result_key r = if r.name == [] then b'#' ∷ to_string r.id else r.name

-- The name that logs and messages show.
unfoldable pub shown_name : Info → Text
shown_name r = if r.name == [] then to_string r.id else r.name
