-- ===== src/Validation/Accepted.antt =====
-- What Workflow::validate is sure of when it passes.
use fast_rules.Base.{ℕ, ◌≡◌, refl, List, [], ◌∷◌, false, Has, here, arith}
use fast_rules.Base.Int.{ℤ_eq}
use fast_rules.Base.Text.{Text_eq}
use fast_rules.Rule.{Rule}
use fast_rules.Validation.Rules.{
  Check, passes, raise, no_fuel, Flags, checks, validate_rule, set_if_passed,
}
use fast_rules.Validation.Ids.{and_also-passes, checks-Distinct}
use fast_rules.Validation.Workflows.{
  check_circular_dependencies, check_rule_ids, validate_each, validate, go_on, conclude,
  after_rules, after_ids, Validated,
}
use fast_rules.Workflow.Levels.{build_dependency_levels, ok}
use fast_rules.Workflow.Levels.Lists.{Distinct}
use fast_rules.Workflow.Levels.Names.{IsPlain, IsUnambiguous}
use fast_rules.Validation.Ordered.{HasNoMinusOne, build-no_circle}

set-passes :
    (self : ℕ) (flags : Flags) (c : Check) → (set_if_passed self flags c).0 ≡ passes → c ≡ passes
set-passes self flags passes h = refl
set-passes self flags (raise t) h = h
set-passes self flags no_fuel h = h

go_on-passes :
    (r : Check × Flags) (k : Flags → Check × Flags) → (go_on r k).0 ≡ passes → r.0 ≡ passes
go_on-passes (passes, flags) k h = refl
go_on-passes (raise t, flags) k h = h
go_on-passes (no_fuel, flags) k h = h

conclude-passes : (flags : Flags) (c : Check) → (conclude flags c).0 ≡ passes → c ≡ passes
conclude-passes flags passes h = refl
conclude-passes flags (raise t) h = h
conclude-passes flags no_fuel h = h

after-passes :
    (circular : Check) (r : Check × Flags)
    → (after_rules circular r).0 ≡ passes
    → (r.0 ≡ passes) × (circular ≡ passes)
after-passes circular r h = and_also-passes r.0 circular (conclude-passes r.1 _ h)

ids-passes :
    (flags : Flags) (v : Validated) (c : Check) → (after_ids flags v c).0 ≡ passes → v.0 ≡ passes
ids-passes flags v passes h = h
ids-passes flags v (raise t) h = absurd (ground arith)
ids-passes flags v no_fuel h = absurd (ground arith)

-- The check of a rule that was not validated before.
validate_rule-passes :
    (r : Rule) (rules : List Rule) (flags : Flags)
    → flags r.self ≡ false
    → (validate_rule r rules flags).0 ≡ passes
    → checks r rules ≡ passes
unfolding validate_rule
validate_rule-passes r rules flags f h = set-passes r.self flags (checks r rules) (rw f at h)

validate_each-Distinct :
    (rules : List Rule) (flags : Flags)
    → ((r : Rule) → Has r rules → flags r.self ≡ false)
    → (validate_each rules rules flags).0 ≡ passes
    → Distinct rules
unfolding validate_each
validate_each-Distinct [] flags f h = tt
validate_each-Distinct (r ∷ rs) flags f h = checks-Distinct r (r ∷ rs) (
    validate_rule-passes r (r ∷ rs) flags (f r here)
      (go_on-passes (validate_rule r (r ∷ rs) flags) (validate_each (r ∷ rs) rs) h))

-- What a validation that passes has checked.
validate-passes :
    (rules : List Rule) (flags : Flags)
    → (validate rules false flags).0 ≡ passes
    → ((validate_each rules rules flags).0 ≡ passes) × (check_circular_dependencies rules ≡ passes)
unfolding validate
validate-passes rules flags h =
    after-passes (check_circular_dependencies rules) (validate_each rules rules flags)
      (ids-passes flags _ (check_rule_ids [] rules) h)

-- A workflow that was not validated before, and none of whose rules was, and that Workflow::validate
-- passes, is not refused by buildDependencyLevels: the levels are built, where no rule has the id -1,
-- no dependency holds a zero byte, and a name that is depended upon is the name of one rule.
pub validate-build :
    (rules : List Rule) (flags : Flags)
    → ((r : Rule) → Has r rules → flags r.self ≡ false)
    → HasNoMinusOne rules
    → IsPlain rules
    → IsUnambiguous rules
    → (validate rules false flags).0 ≡ passes
    → (ls : List (List Rule)) × (build_dependency_levels rules ≡ ok ls)
validate-build rules flags fresh ids plain one h =
    let (each, circular) = validate-passes rules flags h in
    build-no_circle rules (validate_each-Distinct rules flags fresh each) plain one ids circular
