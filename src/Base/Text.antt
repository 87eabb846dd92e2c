-- ===== src/Base/Text.antt =====
-- `std::string` as the list of its bytes, and `std::to_string` of an `int`.
use fast_rules.Base.Tests.{ltb, nat_eq, nat_eq_iff, if◌then◌else◌}
use fast_rules.Base.Classes.{Eq}
use fast_rules.Base.Int.{ℤ, pos, negsuc}
use Prim.Native.Char.{code}
use Prim.Native.String.{String}
use Prim.Native.Nat.{ℕ, zero, suc, ◌+◌, ◌/◌, ◌%◌}
use mathlib.Core.Path.{◌≡◌}
use mathlib.Core.Logic.{◌↔◌}
use mathlib.Core.Bool.{Bool, true, false, ◌&&◌}
use mathlib.Core.List.{List, [], ◌∷◌}
use native.Mathlib.Omega.{arith}

abbrev pub Text : Type 0
Text = List ℕ

-- The bytes of an ASCII literal.
abbrev pub codes : String → Text
codes String.[] = []
codes (String.◌∷◌ c s) = code c ∷ codes s

abbrev pub text_eq : Text → Text → Bool
text_eq [] [] = true
text_eq [] (y ∷ ys) = false
text_eq (x ∷ xs) [] = false
text_eq (x ∷ xs) (y ∷ ys) = nat_eq x y && text_eq xs ys

pub text_eq_iff : (s t : Text) → (text_eq s t ≡ true) ↔ (s ≡ t)
text_eq_iff [] [] = ground arith
text_eq_iff [] (y ∷ ys) = ground arith
text_eq_iff (x ∷ xs) [] = ground arith
text_eq_iff (x ∷ xs) (y ∷ ys) = ground (arith, text_eq_iff xs ys, nat_eq_iff x y)

instance abbrev pub Text_eq : Eq Text
Text_eq = record { same = text_eq; same_iff = text_eq_iff }

-- Decimal digits of `n`, in front of `acc`; a number has no more digits than its value plus one.
unfoldable pub digits : ℕ → ℕ → Text → Text
digits zero n acc = acc
digits (suc fuel) n acc =
    let longer = (n % 10 + 48) ∷ acc in
    let all_digits = digits fuel (n / 10) longer in if ltb n 10 then longer else all_digits

unfoldable pub to_string : ℤ → Text
unfolding digits
to_string (pos n) = digits (n + 1) n []
to_string (negsuc n) = b'-' ∷ digits (n + 2) (n + 1) []
