-- ===== src/Examples/Patterns.antt =====
-- Expressions that the validator looks into.
use fast_rules.Base.{ℕ, ◌≡◌, ◌↔◌, refl, true, false, is_empty}
use fast_rules.Base.Text.{codes}
use fast_rules.Expression.{contains_at_identifier_boundary}
use fast_rules.Expression.Boundary.{stands_alone_at, contains_iff}

-- "payload" holds no `load`.
payload : contains_at_identifier_boundary (codes "payload > 3") (codes "load") ≡ false
unfolding contains_at_identifier_boundary
payload = refl

contains_iff_example :
    (contains_at_identifier_boundary (codes "x = load(y)") (codes "load") ≡ true) ↔ (
      (is_empty (codes "load") ≡ false)
      × (i : ℕ) × (stands_alone_at (codes "x = load(y)") (codes "load") i ≡ true))
contains_iff_example = contains_iff (codes "x = load(y)") (codes "load")
