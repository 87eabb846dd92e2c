-- ===== src/Dependency/Verdict.antt =====
-- When a rule is said to depend on itself in a circle: what Rule::hasCircularDependency of
-- src/rule.cpp answers.
use fast_rules.Base.{
  ◌≡◌, refl, sym, ◌∙◌, ◌↔◌, inl, inr, List, [], Bool, true, false, Option, none, some, arith, ◌==◌,
  Option-cases,
}
use fast_rules.Base.Int.{ℤ, pos, ℤ_eq}
use fast_rules.Rule.{Info}
use fast_rules.Dependency.{
  rule_map, name_to_id, dependency_id, next_id, circular_loop, fuel_for, has_circular_dependency,
}
use fast_rules.Dependency.Ends.{has_circular_dependency-ends}
use fast_rules.Dependency.Path.{
  EndsWithout, Circles, apart, circular_loop-false, circular_loop-true,
}

-- The step among the rules, and the first rule that a rule depends on.
abbrev pub step_among : List Info → ℤ → Option ℤ
step_among rules c = next_id (rule_map rules []) (name_to_id rules []) c

abbrev pub first_of : Info → List Info → Option ℤ
first_of r rules = dependency_id (name_to_id rules []) (some r)

not_both : (next : ℤ → Option ℤ) (id c : ℤ) → EndsWithout next id c → ¬ (Circles next id c)
not_both next id c e (inl (k, h)) = e.1 k h
not_both next id c e (inr endless) = let (n, h) = e.0 in apart (sym h ∙ (endless n).1)

loop_of :
    (r : Info) (rules : List Info) (c : ℤ)
    → first_of r rules ≡ some c
    → has_circular_dependency r rules ≡ circular_loop (step_among rules) r.id (fuel_for rules) [] c
unfolding has_circular_dependency
loop_of r rules c e = rw (has_circular_dependency, e) refl

no_first :
    (r : Info) (rules : List Info)
    → first_of r rules ≡ none
    → has_circular_dependency r rules ≡ some false
unfolding has_circular_dependency
no_first r rules e = rw (has_circular_dependency, e) refl

said_both : (o : Option Bool) → o ≡ some true → ¬ (o ≡ some false)
said_both o h g = ground arith

-- A rule whose id is not 0 is said to have a circular dependency exactly if it depends on a rule from
-- which the steps from rule to rule, by the names they depend on, lead to it or never end, where the
-- steps end at a rule with the id 0: the code does not follow what such a rule depends on.
pub has_circular_dependency_iff :
    (r : Info) (rules : List Info)
    → (r.id == pos 0) ≡ false
    → (has_circular_dependency r rules ≡ some true)
      ↔ ((c : ℤ) × (first_of r rules ≡ some c) × Circles (step_among rules) r.id c)
has_circular_dependency_iff r rules nz = (forth, back)
  where
    forth :
        has_circular_dependency r rules ≡ some true
        → (c : ℤ) × (first_of r rules ≡ some c) × Circles (step_among rules) r.id c
    forth h = elim (Option-cases (first_of r rules)) [
      | inl e ↦ absurd (said_both _ h (no_first r rules e))
      | inr (c, e) ↦ (
        c,
        e,
        circular_loop-true (step_among rules) r.id (fuel_for rules) [] c tt
            (sym (loop_of r rules c e) ∙ h),
      )
    ]

    decided :
        (c : ℤ) (b : Bool)
        → first_of r rules ≡ some c
        → Circles (step_among rules) r.id c
        → has_circular_dependency r rules ≡ some b
        → has_circular_dependency r rules ≡ some true
    decided c true e circles h = h
    decided c false e circles h = absurd (
        not_both (step_among rules) r.id c
          (circular_loop-false (step_among rules) r.id (fuel_for rules) [] c nz
            (sym (loop_of r rules c e) ∙ h))
          circles)

    back :
        ((c : ℤ) × (first_of r rules ≡ some c) × Circles (step_among rules) r.id c)
        → has_circular_dependency r rules ≡ some true
    back (c, e, circles) =
        let (b, h) = has_circular_dependency-ends r rules in decided c b e circles h
