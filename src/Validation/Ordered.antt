-- ===== src/Validation/Ordered.antt =====
-- Where the search of checkCircularDependencies finds nothing, the dependency levels are built.
use mathlib.Core.WellFounded.{Acc}
use fast_rules.Base.{
  ◌≡◌, ◌≢◌, refl, sym, ap, subst, ◌∙◌, inl, inr, List, [], ◌∷◌, Bool, true, false, some, ◌==◌,
  eq_iff, find, Has, here, there, arith, Bool-cases,
}
use fast_rules.Base.Int.{ℤ, negsuc, ℤ_eq}
use fast_rules.Base.Dict.{lookup}
use fast_rules.Base.Text.{Text, Text_eq}
use fast_rules.Rule.{Rule}
use fast_rules.Validation.{Colors, Outcome, cycle, finished, out_of_fuel, search}
use fast_rules.Validation.Graph.{Edge, Grounded}
use fast_rules.Validation.Verdict.{is_known, IsFresh, finished-Grounded}
use fast_rules.Validation.Rules.{passes}
use fast_rules.Validation.Workflows.{
  dependency_of, unvisited, circular_check, check_circular_dependencies,
}
use fast_rules.Workflow.Levels.{is_named, build_dependency_levels, depends_on, ok}
use fast_rules.Workflow.Levels.Lists.{Distinct, Has-id}
use fast_rules.Workflow.Levels.Order.{to_map-append}
use fast_rules.Workflow.Levels.Loop.{Stuck}
use fast_rules.Workflow.Levels.Names.{IsPlain, IsUnambiguous, depends_on_iff}
use fast_rules.Workflow.Levels.Cycles.{waits, left-rules, build-unless-Stuck}

-- `-1` stands for a missing rule, so a rule with this id is never found.
abbrev pub HasNoMinusOne : List Rule → Type 0
HasNoMinusOne rules = (r : Rule) → Has r rules → r.id ≢ negsuc 0

find-some :
    (p : Rule → Bool) (rules : List Rule) (r : Rule)
    → Has r rules
    → p r ≡ true
    → (q : Rule) × (find p rules ≡ some q) × Has q rules × (p q ≡ true)
find-some p [] r m t = elim m [ ]
find-some p (_ ∷ rules) r here t = (r, rw t, here, t)
find-some p (q ∷ rules) r (there m) t = elim (Bool-cases (p q)) [
  | inl e ↦ (q, rw e, here, e)
  | inr f ↦ let (x, e, h, t') = find-some p rules r m t in (x, rw f e, there h, t')
]

IsFresh-unvisited : (rules : List Rule) → IsFresh (unvisited rules)
IsFresh-unvisited [] = tt
IsFresh-unvisited (r ∷ rules) = (refl, IsFresh-unvisited rules)

known-unvisited :
    (rules : List Rule) (r : Rule) → Has r rules → is_known (unvisited rules) r.id ≡ true
unfolding lookup
known-unvisited [] r m = elim m [ ]
known-unvisited (_ ∷ rules) r here = rw ((eq_iff r.id r.id).1 refl)
known-unvisited (q ∷ rules) r (there m) = elim (Bool-cases (q.id == r.id)) [
  | inl e ↦ rw e
  | inr f ↦ rw f (known-unvisited rules r m)
]

dependency_of-one :
    (rules : List Rule) (id : ℤ) (n : Text) (r q : Rule)
    → find (λ x. x.id == id) rules ≡ some r
    → r.depends_on_rule_name ≡ some n
    → find (is_named n) rules ≡ some q
    → (q.id == negsuc 0) ≡ false
    → dependency_of rules id ≡ q.id ∷ []
unfolding dependency_of
dependency_of-one rules id n r q found e named f = rw (found, e, named, f)

module _ (rules : List Rule) (u : Distinct rules) (one : IsUnambiguous rules)
    (ids : HasNoMinusOne rules) where
  differ : (q : Rule) → Has q rules → (q.id == negsuc 0) ≡ false
  differ q m = elim (Bool-cases (q.id == negsuc 0)) [
    | inl e ↦ absurd (ids q m ((eq_iff q.id (negsuc 0)).0 e))
    | inr f ↦ f
  ]

  -- The search goes on from a rule to the one that it depends on.
  dependency-Edge :
      (r q : Rule)
      → Has r rules
      → Has q rules
      → depends_on q.name r ≡ true
      → Edge (dependency_of rules) (is_known (unvisited rules)) r.id q.id
  dependency-Edge r q h m t =
      let (r', found, h', same) =
        find-some (λ x. x.id == r.id) rules r h ((eq_iff r.id r.id).1 refl) in
      let again : r' ≡ r = Has-id rules u h' h ((eq_iff r'.id r.id).0 same) in
      let e = (depends_on_iff q.name r).0 t in
      let (q', found', m', named) =
        find-some (is_named q.name) rules q m ((eq_iff q.name q.name).1 refl) in
      let t' : depends_on q'.name r ≡ true =
        subst (λ n. depends_on n r ≡ true) (sym ((eq_iff q'.name q.name).0 named)) t in
      let other : q' ≡ q = one r q' q h m' m t' t in
      let real : (q.id == negsuc 0) ≡ false = differ q m in
      let list =
        dependency_of-one rules r.id q.name r q (found ∙ ap some again) e (found' ∙ ap some other)
          real in
      (subst (Has q.id) (sym list) here, known-unvisited rules q m)

  -- No rule waits where every walk from it ends.
  ends-waiting :
      (plain : IsPlain rules) (s : Stuck rules) {x : ℤ}
      → Grounded (dependency_of rules) (is_known (unvisited rules)) x
      → (r : Rule) → r.id ≡ x
      → ¬ Has r s.m
  ends-waiting plain s (Acc.intro x below) r e m =
      let listed = left-rules rules plain one s r m in
      let (q, left, t) = waits rules plain one s r m listed in
      let edge = dependency-Edge r q listed (left-rules rules plain one s q left) t in
      ends-waiting plain s
        (below q.id
          (subst (λ k. Edge (dependency_of rules) (is_known (unvisited rules)) k q.id) e edge))
        q refl left

finished-passes : (o : Outcome) → circular_check o ≡ passes → (d : Colors) × (o ≡ finished d)
finished-passes (cycle path n) h = absurd (ground arith)
finished-passes (finished d) h = (d, refl)
finished-passes out_of_fuel h = absurd (ground arith)

circular_check-finished :
    (rules : List Rule)
    → Distinct rules
    → check_circular_dependencies rules ≡ passes
    → (d : Colors) × (search (dependency_of rules) (unvisited rules) ≡ finished d)
unfolding check_circular_dependencies
circular_check-finished rules u h =
    finished-passes (search (dependency_of rules) (unvisited rules))
      (rw (to_map-append [] rules u) at h)

pub build-no_circle :
    (rules : List Rule)
    → Distinct rules
    → IsPlain rules
    → IsUnambiguous rules
    → HasNoMinusOne rules
    → check_circular_dependencies rules ≡ passes
    → (ls : List (List Rule)) × (build_dependency_levels rules ≡ ok ls)
build-no_circle rules u plain one ids h =
    let (d, e) = circular_check-finished rules u h in
    build-unless-Stuck rules u λ s r m.
      let listed = left-rules rules plain one s r m in
      ends-waiting rules u one ids plain s
        (finished-Grounded (dependency_of rules) (unvisited rules) d (IsFresh-unvisited rules) e
          r.id (known-unvisited rules r listed))
        r refl m
