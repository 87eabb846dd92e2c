-- ===== src/Workflow/Compilation/Gathered.antt =====
-- Every remaining rule whose children are all compiled gets into the next level.
use fast_rules.Base.{
  ℕ, ◌≡◌, ◌≢◌, refl, ap, ◌∙◌, inl, inr, List, [], ◌∷◌, ◌++◌, Bool, true, false, ◌==◌, ℕ_eq, eq_iff,
  eq_refl, All-Has, Has, here, there, Bool-cases, arith,
}
use fast_rules.Base.Int.{pos, dec, ℤ_eq}
use fast_rules.Rule.{Rule}
use fast_rules.Workflow.Levels.Lists.{Distinct}
use fast_rules.Workflow.Compilation.{
  has_address, addresses, Progress, lower, visit_children, visit_parent, visit_parents, visit_level,
}
use fast_rules.Workflow.Compilation.Round.{addresses-append, absent-tally, present-tally}
use fast_rules.Workflow.Compilation.Degrees.{waiting, visit_parent-degree}
use fast_rules.Workflow.Compilation.Barrier.{children, has_address-append, Apart}
use fast_rules.Workflow.Compilation.Exact.{NoRepeats, waiting-cons, Counted, visit_parents-Counted}

abbrev pub is_gathered : ℕ → Progress → Bool
is_gathered x p = has_address x (addresses p.current)

lower_keeps :
    (x : ℕ) (parent : Rule) (p : Progress)
    → is_gathered x p ≡ true
    → is_gathered x (lower parent p) ≡ true
lower_keeps x parent p h = elim (Bool-cases (dec (p.in_degree parent.id) == pos 0)) [
  | inl z ↦
      rw
        (
          z,
          addresses-append p.current (parent ∷ []),
          has_address-append x (addresses p.current) (parent.self ∷ []),
          h,
        )
        refl
  | inr f ↦ rw f h
]

visit_children_keeps :
    (x a : ℕ) (parent : Rule) (cs : List ℕ) (p : Progress)
    → is_gathered x p ≡ true
    → is_gathered x (visit_children a parent cs p) ≡ true
visit_children_keeps x a parent [] p h = h
visit_children_keeps x a parent (c ∷ cs) p h = elim (Bool-cases (c == a)) [
  | inl t ↦ rw t (lower_keeps x parent p h)
  | inr f ↦ rw f (visit_children_keeps x a parent cs p h)
]

visit_parent_keeps :
    (x : ℕ) (remaining : List ℕ) (a : ℕ) (parent : Rule) (p : Progress)
    → is_gathered x p ≡ true
    → is_gathered x (visit_parent remaining a parent p) ≡ true
visit_parent_keeps x remaining a parent p h =
    elim (Bool-cases (has_address parent.self remaining)) [
      | inl t ↦ rw t (visit_children_keeps x a parent (children parent) p h)
      | inr f ↦ rw f h
    ]

visit_parents_keeps :
    (x : ℕ) (remaining : List ℕ) (a : ℕ) (rs : List Rule) (p : Progress)
    → is_gathered x p ≡ true
    → is_gathered x (visit_parents remaining a rs p) ≡ true
visit_parents_keeps x remaining a [] p h = h
visit_parents_keeps x remaining a (r ∷ rs) p h =
    visit_parents_keeps x remaining a rs (visit_parent remaining a r p)
      (visit_parent_keeps x remaining a r p h)

visit_children-lower :
    (a : ℕ) (parent : Rule) (cs : List ℕ) (p : Progress)
    → has_address a cs ≡ true
    → visit_children a parent cs p ≡ lower parent p
visit_children-lower a parent [] p h = absurd (ground arith)
visit_children-lower a parent (c ∷ cs) p h = elim (Bool-cases (c == a)) [
  | inl t ↦ rw t refl
  | inr f ↦ rw f (visit_children-lower a parent cs p (rw f at h))
]

lower_gathers :
    (parent : Rule) (p : Progress)
    → p.in_degree parent.id ≡ pos 1
    → is_gathered parent.self (lower parent p) ≡ true
lower_gathers parent p e =
    let z : (dec (p.in_degree parent.id) == pos 0) ≡ true = ap (λ k. dec k == pos 0) e in
    rw
      (
        z,
        addresses-append p.current (parent ∷ []),
        has_address-append parent.self (addresses p.current) (parent.self ∷ []),
        eq_refl parent.self,
      )
      (ground arith)

-- The last child of a rule puts the rule into the level.
visit_parents_gathers :
    (remaining : List ℕ) (a : ℕ) (rs : List Rule) (p : Progress) {q : Rule}
    → Distinct rs
    → Has q rs
    → has_address q.self remaining ≡ true
    → has_address a (children q) ≡ true
    → p.in_degree q.id ≡ pos 1
    → is_gathered q.self (visit_parents remaining a rs p) ≡ true
visit_parents_gathers remaining a [] p u m h c e = elim m [ ]
visit_parents_gathers remaining a (r ∷ rs) p u here h c e =
    visit_parents_keeps r.self remaining a rs (visit_parent remaining a r p)
      (rw (h, visit_children-lower a r (children r) p c) (lower_gathers r p e))
visit_parents_gathers remaining a (r ∷ rs) p {q} u (there m) h c e =
    visit_parents_gathers remaining a rs (visit_parent remaining a r p) u.1 m h c (
      visit_parent-degree remaining a r p q.id ∙ elim (Bool-cases (r.id == q.id)) [
        | inl t ↦ absurd (All-Has (λ x. r.id ≢ x.id) u.0 m ((eq_iff r.id q.id).0 t))
        | inr f ↦ rw f (ground (arith, e))
      ])

module _ (rules : List Rule) (u : Distinct rules) (single : NoRepeats rules) where
  -- A remaining rule that has no child in `s` is gathered.
  abbrev pub Gathers : List ℕ → List ℕ → Progress → Type 0
  Gathers remaining s p =
      (r : Rule)
      → Has r rules
      → has_address r.self remaining ≡ true
      → waiting s (children r) ≡ 0
      → is_gathered r.self p ≡ true

  visit_parents-Gathers :
      (remaining : List ℕ) (a : ℕ) (s : List ℕ) (p : Progress)
      → has_address a s ≡ false
      → Counted rules u single remaining (a ∷ s) p.in_degree
      → Gathers remaining (a ∷ s) p
      → Gathers remaining s (visit_parents remaining a rules p)
  visit_parents-Gathers remaining a s p f c g r m h z =
      let count = waiting-cons a s (children r) f in
      elim (Bool-cases (has_address a (children r))) [
        | inl t ↦
            let one : waiting (a ∷ s) (children r) ≡ 1 =
              omega (arith, single r m a, present-tally a (children r) t, count, z) in
            visit_parents_gathers remaining a rules p u m h t (c r m h ∙ ap pos one)
        | inr n ↦
            visit_parents_keeps r.self remaining a rules p
              (g r m h (omega (arith, absent-tally a (children r) n, count, z)))
      ]

  pub visit_level-Gathers :
      (remaining level : List ℕ) (p : Progress)
      → Apart level remaining
      → Counted rules u single remaining (level ++ remaining) p.in_degree
      → Gathers remaining (level ++ remaining) p
      → let next = visit_level remaining rules level p in
        Counted rules u single remaining remaining next.in_degree × Gathers remaining remaining next
  unfolding visit_level
  visit_level-Gathers remaining [] p i c g = (c, g)
  visit_level-Gathers remaining (a ∷ level) p i c g =
      visit_level-Gathers remaining level (visit_parents remaining a rules p) i.1
        (visit_parents-Counted rules u single remaining a (level ++ remaining) p i.0 c)
        (visit_parents-Gathers remaining a (level ++ remaining) p i.0 c g)
