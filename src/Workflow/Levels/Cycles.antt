-- ===== src/Workflow/Levels/Cycles.antt =====
-- When buildDependencyLevels throws "Circular dependency detected in workflow".
use fast_rules.Base.{
  ℕ, zero, suc, ◌<◌, ◌≡◌, refl, subst, ◌∙◌, inl, inr, List, [], ◌∷◌, true, false, Has, here,
  Bool-cases, arith, is_empty,
}
use fast_rules.Base.Int.{ℤ_eq}
use fast_rules.Base.Text.{Text_eq}
use fast_rules.Rule.{Rule}
use fast_rules.Workflow.Levels.{
  has_dependency, build_dependency_levels, depends_on, Result, ok, throw, circular, out_of_fuel,
}
use fast_rules.Workflow.Levels.Lists.{Distinct, Has-keep}
use fast_rules.Workflow.Levels.Step.{count_dependency}
use fast_rules.Workflow.Levels.Loop.{Stuck, Ends}
use fast_rules.Workflow.Levels.Order.{build-Ends}
use fast_rules.Workflow.Levels.Names.{
  IsPlain, IsUnambiguous, depends_on-listed, listed-depends_on, count-le_one, count-pos, count_none,
}

-- `rank` puts every dependency below the rule that has it: there is no cycle.
abbrev pub IsRanked : (Rule → ℕ) → List Rule → Type 0
IsRanked rank rules =
    (r q : Rule) → Has r rules → Has q rules → depends_on q.name r ≡ true → rank q < rank r

module _ (rules : List Rule) (plain : IsPlain rules) (one : IsUnambiguous rules)
    (s : Stuck rules) where
  -- Where no rule is ready, each rule that is left waits for another one that is left.
  pub waits :
      (r : Rule) → Has r s.m → Has r rules → (q : Rule) × Has q s.m × (depends_on q.name r ≡ true)
  waits r m h = elim (Bool-cases (has_dependency rules r)) [
    | inl t ↦
        let (q, listed, t') = listed-depends_on rules r plain h t in
        elim (s.inv.covers q listed) [
          | inl p ↦
              let c : count_dependency r s.placed ≡ 1 = omega (
                arith,
                count-le_one rules s.placed r one h s.inv.once s.inv.known,
                count-pos r s.placed q p t',
              ) in
              absurd (s.none_ready r m (s.inv.degrees r m ∙ rw (c, t)))
          | inr l ↦ (q, l, t')
        ]
    | inr f ↦
        let c : count_dependency r s.placed ≡ 0 =
          count_none r s.placed
            (λ q p t. cc (depends_on-listed rules r q plain h (s.inv.known q p) t)) in
        absurd (s.none_ready r m (s.inv.degrees r m ∙ rw (c, f)))
  ]

  pub left-rules : (r : Rule) → Has r s.m → Has r rules
  left-rules r m = (Has-keep s.inv.which rules r (subst (Has r) s.inv.sub m)).0

  descent :
      (rank : Rule → ℕ) → IsRanked rank rules → (n : ℕ) (r : Rule) → Has r s.m → ¬ (rank r < n)
  descent rank ranked zero r m lt = elim lt [ ]
  descent rank ranked (suc n) r m lt =
      let (q, m', t) = waits r m (left-rules r m) in
      let below = ranked r q (left-rules r m) (left-rules q m') t in
      descent rank ranked n q m' (omega arith)

pub first_of_list : {A : Type 0} (xs : List A) → is_empty xs ≡ false → (x : A) × Has x xs
first_of_list [] e = cc
first_of_list (x ∷ xs) e = (x, here)

-- The levels are built unless rules are left of which none is ready.
pub build-unless-Stuck :
    (rules : List Rule)
    → Distinct rules
    → ((s : Stuck rules) (r : Rule) → ¬ Has r s.m)
    → (ls : List (List Rule)) × (build_dependency_levels rules ≡ ok ls)
build-unless-Stuck rules u free = go (build_dependency_levels rules) (build-Ends rules u) refl
  where
    go :
        (r : Result (List (List Rule)))
        → Ends rules [] rules r
        → build_dependency_levels rules ≡ r
        → (ls : List (List Rule)) × (build_dependency_levels rules ≡ ok ls)
    go (ok ls) h e = (ls, e)
    go (throw circular) h e = let (r, m) = first_of_list h.m h.some_left in absurd (free h r m)
    go (throw out_of_fuel) h e = absurd h

-- A workflow with distinct ids, plain and unambiguous dependency names and no dependency cycle is
-- never refused: the levels are built.
pub build_acyclic :
    (rank : Rule → ℕ) (rules : List Rule)
    → Distinct rules
    → IsPlain rules
    → IsUnambiguous rules
    → IsRanked rank rules
    → (ls : List (List Rule)) × (build_dependency_levels rules ≡ ok ls)
build_acyclic rank rules u plain one ranked =
    build-unless-Stuck rules u
      (λ s r m. descent rules plain one s rank ranked (suc (rank r)) r m (omega arith))
