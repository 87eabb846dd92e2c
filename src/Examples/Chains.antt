-- ===== src/Examples/Chains.antt =====
-- Rules that depend on each other.
use fast_rules.Base.{
  ℕ, ◌≡◌, ◌≢◌, refl, ◌↔◌, List, [], ◌∷◌, Bool, true, false, none, some, ◌⊎◌, get_elem?,
}
use fast_rules.Base.Int.{ℤ, pos, ℤ_eq}
use fast_rules.Base.Dict.{lookup}
use fast_rules.Base.Text.{Text, Text_eq, codes}
use fast_rules.Rule.{Info}
use fast_rules.Rule.Back.{check_dependency_on_iff}
use fast_rules.Rule.Builder.{check_dependency_on, passes, no_fuel}
use fast_rules.Versioning.{new_info}
use fast_rules.Dependency.{name_to_id, has_circular_dependency, get_dependency_chain}
use fast_rules.Dependency.Path.{follow, Circles}
use fast_rules.Dependency.Ends.{dependency_ends}
use fast_rules.Dependency.Verdict.{step_among, first_of, has_circular_dependency_iff}
use fast_rules.Dependency.Chain.{IsWhole, get_dependency_chain_follows}

abbrev dependent : ℕ → Text → Text → Info
dependent id name on = record (new_info id) {
  id = pos id;
  name = name;
  depends_on_rule_name = some on;
}

-- The rule 1 depends on 2, and 2 and 3 depend on each other.
abbrev first : Info
first = dependent 1 (codes "a") (codes "b")

abbrev trio : List Info
trio = first ∷ dependent 2 (codes "b") (codes "c") ∷ dependent 3 (codes "c") (codes "b") ∷ []

chain_of_first : get_dependency_chain first trio ≡ some (pos 1 ∷ pos 2 ∷ pos 3 ∷ pos 2 ∷ [])
unfolding get_dependency_chain
chain_of_first = refl

first_circles : has_circular_dependency first trio ≡ some true
unfolding has_circular_dependency
first_circles = refl

has_circular_dependency_iff_example :
    (has_circular_dependency first trio ≡ some true)
    ↔ ((c : ℤ) × (first_of first trio ≡ some c) × Circles (step_among trio) (pos 1) c)
has_circular_dependency_iff_example = has_circular_dependency_iff first trio refl

get_dependency_chain_follows_example :
    ((first_of first trio ≡ none) × (pos 1 ∷ pos 2 ∷ pos 3 ∷ pos 2 ∷ [] ≡ pos 1 ∷ []))
    ⊎ ((c : ℤ) × (rest : List ℤ) × (first_of first trio ≡ some c)
        × (pos 1 ∷ pos 2 ∷ pos 3 ∷ pos 2 ∷ [] ≡ pos 1 ∷ rest)
        × IsWhole (step_among trio) [] c rest
        × ((k : ℕ) (x : ℤ) → get_elem? rest k ≡ some x → follow (step_among trio) k c ≡ some x))
get_dependency_chain_follows_example =
    get_dependency_chain_follows first trio (pos 1 ∷ pos 2 ∷ pos 3 ∷ pos 2 ∷ []) chain_of_first

-- The rules 1 and 0 depend on each other. The loops end at the id 0, so that neither the answer for
-- rule 1 nor the check of `dependsOn` for a rule 1 shows it.
abbrev around : Info
around = dependent 1 (codes "a") (codes "z")

abbrev at_zero : Info
at_zero = dependent 0 (codes "z") (codes "a")

circle_missed : has_circular_dependency around (around ∷ at_zero ∷ []) ≡ some false
unfolding has_circular_dependency
circle_missed = refl

dependency_passed : check_dependency_on (codes "z") (pos 1) (around ∷ at_zero ∷ []) ≡ passes
unfolding check_dependency_on
dependency_passed = refl

dependency_ends_example :
    ((b : Bool) × (has_circular_dependency first trio ≡ some b))
    × (chain : List ℤ) × (get_dependency_chain first trio ≡ some chain)
dependency_ends_example = dependency_ends first trio

check_dependency_on_iff_example :
    (check_dependency_on (codes "b") (pos 1) trio ≢ no_fuel)
    × ((check_dependency_on (codes "b") (pos 1) trio ≡ passes) ↔ (
        (c : ℤ)
        → lookup (codes "b") (name_to_id trio []) ≡ some c
        → (k : ℕ) → ¬ (follow (step_among trio) k c ≡ some (pos 1))))
check_dependency_on_iff_example = check_dependency_on_iff (codes "b") (pos 1) trio
