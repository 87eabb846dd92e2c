-- ===== src/Workflow/Compilation/Acyclic.antt =====
-- Where the children have no cycle, the loop leaves no rule, and the levels are in order.
use fast_rules.Base.{
  ℕ, zero, suc, ◌<◌, ◌≡◌, ◌≢◌, refl, sym, ap, ◌∙◌, subst, inl, inr, List, [], ◌∷◌, ◌++◌, append-nil,
  true, Option, none, some, ◌==◌, ℕ_eq, eq_refl, length, Has, Bool-cases, arith,
}
use fast_rules.Base.Int.{pos, ℤ_eq}
use fast_rules.Rule.{Rule}
use fast_rules.Workflow.Levels.{Counts}
use fast_rules.Workflow.Levels.Lists.{Distinct, keep-Has}
use fast_rules.Workflow.Compilation.{
  has_address, addresses, Progress, visit_level, erase_level, compilation_rounds, count_children,
  first_progress, build_rounds, build_compilation_levels,
}
use fast_rules.Workflow.Compilation.Round.{
  Unique, Fresh, has_address-rule, Has-has_address, visit_level-Fresh,
}
use fast_rules.Workflow.Compilation.Cover.{has-erase_level, all_listed, first-Fresh}
use fast_rules.Workflow.Compilation.Degrees.{waiting, waiting-le}
use fast_rules.Workflow.Compilation.Barrier.{
  children, has_address-append, Apart-once, still_remains, level_remains,
}
use fast_rules.Workflow.Compilation.After.{InOrder, build_rounds-InOrder}
use fast_rules.Workflow.Compilation.Exact.{NoRepeats, Counted, count_children-exact}
use fast_rules.Workflow.Compilation.Gathered.{Gathers, visit_level-Gathers}

-- `rank` puts each child that is listed below its parent, so that there is no cycle.
abbrev pub IsNested : (ℕ → ℕ) → List Rule → Type 0
IsNested rank rules =
    (r : Rule)
    → Has r rules
    → (c : ℕ) → has_address c (children r) ≡ true
    → has_address c (addresses rules) ≡ true
    → rank c < rank r.self

waiting_child :
    (s cs : List ℕ)
    → waiting s cs ≢ 0
    → (c : ℕ) × (has_address c cs ≡ true) × (has_address c s ≡ true)
waiting_child s [] n = absurd (n refl)
waiting_child s (c ∷ cs) n = elim (Bool-cases (has_address c s)) [
  | inl t ↦ (c, rw (eq_refl c) refl, t)
  | inr f ↦ let (b, m, t) = waiting_child s cs (λ z. n (rw f z)) in (b, ground (arith, m), t)
]

-- A level and what is left of it are what remained.
level_and_left :
    (rules : List Rule) (remaining : List ℕ) (p : Progress)
    → Fresh rules remaining p
    → (x : ℕ)
    → let level = addresses p.current in
      has_address x (level ++ erase_level level remaining) ≡ has_address x remaining
level_and_left rules remaining p i x =
    let level = addresses p.current in
    rw (has_address-append x level (erase_level level remaining), has-erase_level x level remaining)
      (elim (Bool-cases (has_address x level)) [
        | inl t ↦ rw (t, level_remains rules remaining p i x t) refl
        | inr f ↦ rw f (ground arith)
      ])

same_waiting :
    (s t cs : List ℕ) → ((x : ℕ) → has_address x s ≡ has_address x t) → waiting s cs ≡ waiting t cs
same_waiting s t cs e =
    omega (arith, waiting-le s t cs (λ x h. sym (e x) ∙ h), waiting-le t s cs (λ x h. e x ∙ h))

module _ (rules : List Rule) (unique : Unique rules) (u : Distinct rules)
    (single : NoRepeats rules) where
  -- The invariant of the loop, beside `Fresh`.
  pub record Sharp (remaining : List ℕ) (p : Progress) : Type 0 where
    pub counted : Counted rules u single remaining remaining p.in_degree
    pub gathers : Gathers rules u single remaining remaining p
    pub listed : (x : ℕ) → has_address x remaining ≡ true → has_address x (addresses rules) ≡ true

  round-Sharp :
      (remaining : List ℕ) (d : Counts) (current : List Rule)
      → let p : Progress = record { in_degree = d; current = current } in
        let start : Progress = record { in_degree = d; current = [] } in
        let left = erase_level (addresses current) remaining in
        Fresh rules remaining p
        → Sharp remaining p
        → Sharp left (visit_level left rules (addresses current) start)
  round-Sharp remaining d current i h =
      let p : Progress = record { in_degree = d; current = current } in
      let start : Progress = record { in_degree = d; current = [] } in
      let level = addresses current in
      let left = erase_level level remaining in
      let same : (r : Rule)
          → waiting (level ++ left) (children r) ≡ waiting remaining (children r) =
        λ r.
          same_waiting (level ++ left) remaining (children r)
            (level_and_left rules remaining p i) in
      let apart =
        Apart-once level left i.once
          (λ x t. rw (has-erase_level x level remaining, t) (ground arith)) in
      let (c, g) =
        visit_level-Gathers rules u single left level start apart
          (λ r m t. h.counted r m (still_remains r.self level remaining t) ∙ ap pos (sym (same r)))
          (λ r m t z. absurd (
            let there = h.gathers r m (still_remains r.self level remaining t) (sym (same r) ∙ z) in
            ground (arith, has-erase_level r.self level remaining, there, t))) in
      record {
        counted = c;
        gathers = g;
        listed = λ x t. h.listed x (still_remains x level remaining t);
      }

  module _ (rank : ℕ → ℕ) (nested : IsNested rank rules) where
    -- Where no rule is gathered, none remains, by descent along the children.
    none_remains :
        (remaining : List ℕ) (d : Counts)
        → Sharp remaining (record { in_degree = d; current = [] })
        → (n x : ℕ) → has_address x remaining ≡ true
        → ¬ (rank x < n)
    none_remains remaining d h zero x t lt = omega arith
    none_remains remaining d h (suc n) x t lt =
        let (q, m, e) = has_address-rule x rules (h.listed x t) in
        let there : has_address q.self remaining ≡ true = ap (λ y. has_address y remaining) e ∙ t in
        let (c, child, remains) =
          waiting_child remaining (children q)
            (λ z. absurd (ground (arith, h.gathers q m there z))) in
        let below = nested q m c child (h.listed c remains) in
        none_remains remaining d h n c remains (omega (arith, below, lt, ap rank e))

    abbrev Exhausts : Option (List (List Rule) × List ℕ) → Type 0
    Exhausts none = Unit {0}
    Exhausts (some (levels, last)) = last ≡ []

    Exhausts-level :
        (level : List Rule) (rest : Option (List (List Rule) × List ℕ))
        → Exhausts rest
        → Exhausts (elim rest [ none ↦ none | some (levels, last) ↦ some (level ∷ levels, last) ])
    Exhausts-level level none h = tt
    Exhausts-level level (some (levels, last)) h = h

    nothing_left :
        (remaining : List ℕ) (d : Counts)
        → Sharp remaining (record { in_degree = d; current = [] })
        → remaining ≡ []
    nothing_left [] d h = refl
    nothing_left (a ∷ remaining) d h =
        absurd
          (none_remains (a ∷ remaining) d h (suc (rank a)) a (rw (eq_refl a) refl) (omega arith))

    rounds-Exhausts :
        (fuel : ℕ) (remaining : List ℕ) (d : Counts) (current : List Rule)
        → let p : Progress = record { in_degree = d; current = current } in
          Fresh rules remaining p
          → Sharp remaining p
          → Exhausts (compilation_rounds fuel rules remaining p)
    unfolding compilation_rounds
    rounds-Exhausts zero remaining d current i h = tt
    rounds-Exhausts (suc fuel) remaining d [] i h = nothing_left remaining d h
    rounds-Exhausts (suc fuel) remaining d (r ∷ rs) i h =
        let start : Progress = record { in_degree = d; current = [] } in
        let level = addresses (r ∷ rs) in
        let left = erase_level level remaining in
        let next = visit_level left rules level start in
        let fresh =
          visit_level-Fresh rules left unique level start
            (record { due = tt; once = λ x. omega arith }) (all_listed rules) in
        Exhausts-level (r ∷ rs) (compilation_rounds fuel rules left next) (
          rounds-Exhausts fuel left next.in_degree next.current fresh
            (round-Sharp remaining d (r ∷ rs) i h))

    first-Sharp : Sharp (addresses rules) (first_progress rules)
    unfolding first_progress
    first-Sharp =
        let degrees = count_children (addresses rules) rules (λ k. pos 0) in
        let exact : (r : Rule)
            → Has r rules
            → degrees r.id ≡ pos (waiting (addresses rules) (children r)) =
          λ r m. count_children-exact (addresses rules) rules (λ k. pos 0) u m refl in
        record {
          counted = λ r m h. exact r m;
          gathers = λ r m h z.
              Has-has_address
                (keep-Has (λ q. degrees q.id == pos 0) rules r m (rw (exact r m, z) refl));
          listed = λ x h. h;
        }

    build_rounds-Exhausts : Exhausts (build_rounds rules)
    unfolding build_rounds
    build_rounds-Exhausts =
        let p = first_progress rules in
        rounds-Exhausts (suc (length (addresses rules))) (addresses rules) p.in_degree p.current
          (first-Fresh rules unique (all_listed rules)) first-Sharp

-- For rules with different ids at different addresses, none of which has a child twice, and whose
-- listed children have no cycle, buildCompilationLevels ends, and each rule of its levels comes after
-- all of its children that are listed in the workflow too.
pub build_compilation_levels-InOrder :
    (rank : ℕ → ℕ) (rules : List Rule)
    → Unique rules
    → Distinct rules
    → NoRepeats rules
    → IsNested rank rules
    → (levels : List (List Rule)) × (build_compilation_levels rules ≡ some levels)
      × InOrder rules [] levels
unfolding build_compilation_levels
build_compilation_levels-InOrder rank rules unique u single nested =
    let (levels, last, e, o) = build_rounds-InOrder rules unique u in
    let none_left : last ≡ [] =
      subst (Exhausts rules unique u single rank nested) e
        (build_rounds-Exhausts rules unique u single rank nested) in
    (levels, rw (build_compilation_levels, e, none_left, append-nil) refl, o)
