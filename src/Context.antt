-- ===== src/Context.antt =====
-- src/rule_context.cpp: the results and variables that the rules of one run share. A lock makes
-- each operation one step. Variables are `std::any` values of type `V`.
use fast_rules.Base.{Bool, Option, none, some, [], not}
use fast_rules.Base.Dict.{Dict, lookup, insert}
use fast_rules.Base.Text.{Text, Text_eq}
use fast_rules.Result.{RuleResult, is_none}

pub record RuleContext (V : Type 0) : Type 0 where
  pub results : Dict Text RuleResult
  pub variables : Dict Text V
  pub last_error : Option (Text × Text)

module _ {V : Type 0} where
  abbrev pub empty_context : RuleContext V
  empty_context = record { results = []; variables = []; last_error = none }

  unfoldable pub set_result : Text → RuleResult → RuleContext V → RuleContext V
  set_result name r c = record c { results = insert name r c.results }

  unfoldable pub get_result : Text → RuleContext V → Option RuleResult
  get_result name c = lookup name c.results

  unfoldable pub has_result : Text → RuleContext V → Bool
  has_result name c = not (is_none (lookup name c.results))

  unfoldable pub set_variable : Text → V → RuleContext V → RuleContext V
  set_variable name v c = record c { variables = insert name v c.variables }

  unfoldable pub get_variable : Text → RuleContext V → Option V
  get_variable name c = lookup name c.variables

  -- The last error stays.
  unfoldable pub clear : RuleContext V → RuleContext V
  clear c = record c { results = []; variables = [] }

  unfoldable pub set_last_error : Text → Text → RuleContext V → RuleContext V
  set_last_error name error c = record c { last_error = some (name, error) }

  unfoldable pub get_last_error : RuleContext V → Option (Text × Text)
  get_last_error c = c.last_error

  unfoldable pub clear_last_error : RuleContext V → RuleContext V
  clear_last_error c = record c { last_error = none }
