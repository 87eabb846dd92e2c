-- ===== src/Validation/Workflows.antt =====
-- Workflow::validate and Workflow::checkCircularDependencies of src/workflow.cpp. `ruleMap` is the
-- list of its values, as in the building of the dependency levels.
use fast_rules.Base.{
  List, [], ◌∷◌, ◌++◌, Bool, true, false, Option, none, some, if◌then◌else◌, ◌==◌, any, find,
}
use fast_rules.Base.Int.{ℤ, pos, negsuc, ℤ_eq}
use fast_rules.Base.Text.{Text, Text_eq, codes, to_string}
use fast_rules.Rule.{Rule}
use fast_rules.Workflow.Levels.{to_map, is_named}
use fast_rules.Validation.{white, Colors, Outcome, cycle, finished, out_of_fuel, search}
use fast_rules.Validation.Rules.{Check, passes, raise, no_fuel, and_also, Flags, validate_rule}

-- The loop over the map for the rule of a name; -1 is none.
abbrev found_id : Option Rule → ℤ
found_id none = negsuc 0
found_id (some q) = q.id

abbrev id_as_list : ℤ → List ℤ
id_as_list id = if id == negsuc 0 then [] else id ∷ []

abbrev named_dependency : List Rule → Option Text → List ℤ
named_dependency m none = []
named_dependency m (some name) = id_as_list (found_id (find (is_named name) m))

abbrev rule_dependency : List Rule → Option Rule → List ℤ
rule_dependency m none = []
rule_dependency m (some r) = named_dependency m r.depends_on_rule_name

-- The rule, if any, that the search goes on to.
unfoldable pub dependency_of : List Rule → ℤ → List ℤ
dependency_of m id = rule_dependency m (find (λ q. q.id == id) m)

-- `state`: every rule of the map is unvisited.
abbrev pub unvisited : List Rule → Colors
unvisited [] = []
unvisited (r ∷ m) = (r.id, white) ∷ unvisited m

abbrev pub circular_check : Outcome → Check
circular_check (cycle stack n) = raise (codes "Circular dependency detected")
circular_check (finished colors) = passes
circular_check out_of_fuel = no_fuel

unfoldable pub check_circular_dependencies : List Rule → Check
unfolding search to_map dependency_of
check_circular_dependencies rules =
    let m = to_map [] rules in circular_check (search (dependency_of m) (unvisited m))

unfoldable pub check_rule_ids : List ℤ → List Rule → Check
unfolding to_string
check_rule_ids seen [] = passes
check_rule_ids seen (r ∷ rs) =
    if r.id == pos 0
    then check_rule_ids seen rs
    else if any (λ id. id == r.id) seen
    then raise (codes "Duplicate rule ID detected: " ++ to_string r.id)
    else check_rule_ids (r.id ∷ seen) rs

abbrev pub go_on : Check × Flags → (Flags → Check × Flags) → Check × Flags
go_on (passes, flags) k = k flags
go_on (raise t, flags) k = (raise t, flags)
go_on (no_fuel, flags) k = (no_fuel, flags)

-- The loop that validates each rule; it ends with the first exception.
unfoldable pub validate_each : List Rule → List Rule → Flags → Check × Flags
unfolding validate_rule
validate_each rules [] flags = (passes, flags)
validate_each rules (r ∷ rs) flags = go_on (validate_rule r rules flags) (validate_each rules rs)

-- The exception, if any, `validated_`, and the flags of the rules.
abbrev pub Validated : Type 0
Validated = Check × Bool × Flags

abbrev pub conclude : Flags → Check → Validated
conclude flags passes = (passes, true, flags)
conclude flags (raise t) = (raise t, false, flags)
conclude flags no_fuel = (no_fuel, false, flags)

abbrev pub after_rules : Check → Check × Flags → Validated
after_rules circular r = conclude r.1 (and_also r.0 circular)

abbrev pub after_ids : Flags → Validated → Check → Validated
after_ids flags v passes = v
after_ids flags v (raise t) = (raise t, false, flags)
after_ids flags v no_fuel = (no_fuel, false, flags)

unfoldable pub validate : List Rule → Bool → Flags → Validated
unfolding check_rule_ids validate_each check_circular_dependencies
validate rules validated flags =
    if validated
    then (passes, true, flags)
    else after_ids flags
        (after_rules (check_circular_dependencies rules) (validate_each rules rules flags))
        (check_rule_ids [] rules)
