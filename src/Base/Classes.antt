-- ===== src/Base/Classes.antt =====
-- Types with a Boolean equality test, and the test as one operator.
use mathlib.Core.Path.{◌≡◌, refl}
use mathlib.Core.Logic.{◌↔◌}
use mathlib.Core.Bool.{Bool, true}
use Prim.Native.Nat.{ℕ}
use fast_rules.Base.Tests.{nat_eq, nat_eq_iff}

pub record Eq {κ} (K : Type κ) : Type κ where
  pub same : K → K → Bool
  pub same_iff : (x y : K) → (same x y ≡ true) ↔ (x ≡ y)

infix 50 ◌==◌
abbrev pub ◌==◌ {κ} : {K : Type κ} ⦃c : Eq K⦄ → K → K → Bool
◌==◌ ⦃c⦄ = c.same

instance abbrev pub ℕ_eq : Eq ℕ
ℕ_eq = record { same = nat_eq; same_iff = nat_eq_iff }

module _ {κ} {K : Type κ} ⦃c : Eq K⦄ where
  pub eq_iff : (x y : K) → ((x == y) ≡ true) ↔ (x ≡ y)
  eq_iff x y = c.same_iff x y

  pub eq_refl : (x : K) → (x == x) ≡ true
  eq_refl x = (eq_iff x x).1 refl
