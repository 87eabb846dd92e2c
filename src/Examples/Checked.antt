-- ===== src/Examples/Checked.antt =====
-- Validated workflows, and a ring that only one of the checks sees.
use fast_rules.Base.{◌≡◌, ◌≢◌, refl, ◌↔◌, List, true, false, Has, here, there, arith}
use fast_rules.Base.Int.{negsuc, ℤ_eq}
use fast_rules.Base.Text.{Text_eq, codes}
use fast_rules.Rule.{Rule}
use fast_rules.Validation.{out_of_fuel, search}
use fast_rules.Validation.Graph.{Closed}
use fast_rules.Validation.Verdict.{is_known, finds_cycle, search_iff}
use fast_rules.Validation.Rules.{passes, raise, check_cycles}
use fast_rules.Validation.Workflows.{
  dependency_of, unvisited, check_circular_dependencies, validate,
}
use fast_rules.Validation.Unseen.{check_cycles-passes}
use fast_rules.Validation.Accepted.{validate-build}
use fast_rules.Workflow.Levels.{build_dependency_levels, ok}
use fast_rules.Examples.Levels.{ring, ring-Distinct, chain, chain-IsPlain, chain-IsUnambiguous}

ring_seen : check_circular_dependencies ring ≡ raise (codes "Circular dependency detected")
unfolding check_circular_dependencies
ring_seen = refl

search_iff_example :
    (search (dependency_of ring) (unvisited ring) ≢ out_of_fuel)
    × ((finds_cycle (search (dependency_of ring) (unvisited ring)) ≡ true)
        ↔ Closed (dependency_of ring) (is_known (unvisited ring)))
search_iff_example = search_iff (dependency_of ring) (unvisited ring) (refl, (refl, tt))

chain-passes : (validate chain false (λ _. false)).0 ≡ passes
unfolding validate
chain-passes = refl

chain-ids : (r : Rule) → Has r chain → r.id ≢ negsuc 0
chain-ids r here e = ground arith
chain-ids r (there here) e = ground arith
chain-ids r (there (there h)) e = elim h [ ]

validate-build_example : (ls : List (List Rule)) × (build_dependency_levels chain ≡ ok ls)
validate-build_example =
    validate-build chain (λ _. false) (λ r h. refl) chain-ids chain-IsPlain chain-IsUnambiguous
      chain-passes

check_cycles-passes_example : check_cycles ring ≡ passes
check_cycles-passes_example =
    check_cycles-passes ring ring-Distinct
      ((refl, λ e. ground arith), ((refl, λ e. ground arith), tt))
