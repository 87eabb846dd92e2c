-- ===== src/Validation/Unseen.antt =====
-- The circles that the search of Rule::validate cannot see.
use mathlib.Core.WellFounded.{Acc}
use fast_rules.Base.{
  ◌≡◌, ◌≢◌, refl, sym, List, [], ◌∷◌, Bool, true, some, Has, here, there, arith, All,
}
use fast_rules.Base.Int.{ℤ, ℤ_eq}
use fast_rules.Base.Dict.{lookup}
use fast_rules.Base.Text.{Text_eq}
use fast_rules.Rule.{Rule, nil}
use fast_rules.Validation.{Outcome, cycle, finished, out_of_fuel, search}
use fast_rules.Validation.Graph.{Grounded, Grounded-open}
use fast_rules.Validation.Verdict.{is_known, finds_cycle, search_iff}
use fast_rules.Validation.Rules.{
  Links, neighbors, link_rules, link_dependency, register, no_links, report, check_cycles, passes,
}
use fast_rules.Workflow.Levels.Lists.{Distinct}
use fast_rules.Validation.Layers.{IsLayered, linked-IsLayered}

not-cons : (x id : ℤ) (seen : List ℤ) → x ≢ id → ¬ Has x seen → ¬ Has x (id ∷ seen)
not-cons x id seen d n here = d refl
not-cons x id seen d n (there m) = n m

none-seen : (rules : List Rule) → All (λ r. ¬ Has r.id []) rules
none-seen [] = tt
none-seen (r ∷ rules) = (λ h. elim h [ ], none-seen rules)

not-seen :
    (rules : List Rule) (seen : List ℤ) (id : ℤ)
    → All (λ q. id ≢ q.id) rules
    → All (λ q. ¬ Has q.id seen) rules
    → All (λ q. ¬ Has q.id (id ∷ seen)) rules
not-seen [] seen id d n = tt
not-seen (q ∷ rules) seen id d n =
    (not-cons q.id id seen (λ e. d.0 (sym e)) n.0, not-seen rules seen id d.1 n.1)

link_rules-IsLayered :
    (rules : List Rule) (seen : List ℤ) (l : Links)
    → Distinct rules
    → All (λ r. ¬ Has r.id seen) rules
    → All (λ r. (r.child_rules ≡ nil) × (r.depends_on_rule_name ≢ some r.name)) rules
    → IsLayered seen l
    → (later : List ℤ) × IsLayered later (link_rules rules l)
unfolding link_rules
link_rules-IsLayered [] seen l u new flat i = (seen, i)
link_rules-IsLayered (r ∷ rs) seen l u new flat i = rw flat.0.0 (
    link_rules-IsLayered rs (r.id ∷ seen)
      (link_dependency r.id r.depends_on_rule_name (register r l)) u.1
      (not-seen rs seen r.id u.0 new.1) flat.1 (linked-IsLayered r seen l i new.0 flat.0.1))

no_links-IsLayered : IsLayered [] no_links
unfolding lookup neighbors
no_links-IsLayered = record {
  closed = λ x y h. elim h [ ];
  named = λ n y h. absurd (ground arith);
  ends = λ x. Acc.intro x (λ y h. elim h [ ]);
  fresh = tt;
}

restrict :
    (next : ℤ → List ℤ) (is_node : ℤ → Bool) (x : ℤ)
    → Acc (λ y x. Has y (next x)) x
    → Grounded next is_node x
restrict next is_node x (Acc.intro _ below) =
    Acc.intro x (λ y e. restrict next is_node y (below y e.0))

report-passes : (o : Outcome) → o ≢ out_of_fuel → finds_cycle o ≢ true → report o ≡ passes
unfolding report
report-passes (cycle stack n) ends none_found = absurd (none_found refl)
report-passes (finished c) ends none_found = refl
report-passes out_of_fuel ends none_found = absurd (ends refl)

-- The search of Rule::validate passes all rules without children whose ids are distinct and of which
-- none depends on its own name, also where rules depend on each other in a circle.
pub check_cycles-passes :
    (rules : List Rule)
    → Distinct rules
    → All (λ r. (r.child_rules ≡ nil) × (r.depends_on_rule_name ≢ some r.name)) rules
    → check_cycles rules ≡ passes
unfolding check_cycles
check_cycles-passes rules u flat =
    let (seen, i) =
      link_rules-IsLayered rules [] no_links u (none-seen rules) flat no_links-IsLayered in
    let l = link_rules rules no_links in
    let next = neighbors l.adjacency in
    let (ends, found) = search_iff next l.color i.fresh in
    report-passes (search next l.color) ends λ t.
      let (x, w) = found.0 t in
      Grounded-open next (is_known l.color) (restrict next (is_known l.color) x (i.ends x)) w
