-- ===== src/Validation/Graph.antt =====
-- Walks over the edges between rules, and rules from which no walk goes on for ever.
use mathlib.Core.WellFounded.{Acc}
use fast_rules.Base.{◌≡◌, refl, sym, subst, ◌⊎◌, inl, inr, List, Bool, true, Has}
use fast_rules.Base.Int.{ℤ}

module _ (next : ℤ → List ℤ) (is_node : ℤ → Bool) where
  -- An edge leads to a rule that is known.
  abbrev pub Edge : ℤ → ℤ → Type 0
  Edge x y = Has y (next x) × (is_node y ≡ true)

  -- A walk of one edge or more.
  pub data Leads (x : ℤ) : ℤ → Type 0 where
    one : {y : ℤ} → Edge x y → Leads x y
    more : {y z : ℤ} → Leads x y → Edge y z → Leads x z

  -- A walk that comes back to where it starts.
  abbrev pub Closed : Type 0
  Closed = (x : ℤ) × Leads x x

  -- Every walk from the rule ends.
  abbrev pub Grounded : ℤ → Type 0
  Grounded = Acc (λ y x. Edge x y)

  first-Edge : {x z : ℤ} → Leads x z → (y : ℤ) × Edge x y × ((y ≡ z) ⊎ Leads y z)
  first-Edge {z = z} (one e) = (z, e, inl refl)
  first-Edge {z = z} (more w e) =
      let (y, f, rest) = first-Edge w in
      elim rest [
        | inl same ↦ (y, f, inr (one (subst (λ u. Edge u z) (sym same) e)))
        | inr l ↦ (y, f, inr (more l e))
      ]

  pub Grounded-open : {x : ℤ} → Grounded x → ¬ Leads x x
  Grounded-open {x} (Acc.intro _ below) w =
      let (y, e, rest) = first-Edge w in
      elim rest [
        | inl same ↦ Grounded-open (below y e) (subst (λ u. Leads u u) (sym same) w)
        | inr l ↦ Grounded-open (below y e) (more l e)
      ]

  pub last-node : {x y : ℤ} → Leads x y → is_node y ≡ true
  last-node (one e) = e.1
  last-node (more w e) = e.1
