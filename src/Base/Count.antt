-- ===== src/Base/Count.antt =====
-- How often a number stands in a list.
use fast_rules.Base.Tests.{nat_eq, if◌then◌else◌}
use Prim.Native.Nat.{ℕ, ◌+◌}
use mathlib.Core.Path.{◌≡◌}
use mathlib.Core.List.{List, [], ◌∷◌, ◌++◌}
use native.Mathlib.Omega.{arith}

abbrev pub tally : ℕ → List ℕ → ℕ
tally n [] = 0
tally n (m ∷ ms) = if nat_eq m n then tally n ms + 1 else tally n ms

pub tally-append :
    (n : ℕ) (left right : List ℕ) → tally n (left ++ right) ≡ tally n left + tally n right
tally-append n [] right = ground arith
tally-append n (m ∷ ms) right = ground (arith, tally-append n ms right)
