-- ===== src/Base/Search.antt =====
-- `std::string::find`, character classes of the C locale, and case folding.
use fast_rules.Base.Tests.{leb, nat_eq, if◌then◌else◌}
use fast_rules.Base.Lists.{drop}
use fast_rules.Base.Text.{Text}
use Prim.Native.Nat.{ℕ, suc, ◌+◌}
use mathlib.Core.Bool.{Bool, true, false, ◌&&◌, ◌||◌}
use mathlib.Core.Option.{Option, none, some}
use mathlib.Core.List.{[], ◌∷◌, map}

abbrev pub starts_with : Text → Text → Bool
starts_with [] s = true
starts_with (c ∷ p) [] = false
starts_with (c ∷ p) (d ∷ s) = nat_eq c d && starts_with p s

-- The first place at or after `i` where `p` occurs in the rest `s`, whose index is `i`.
unfoldable pub search_from : Text → Text → ℕ → Option ℕ
search_from p [] i = if starts_with p [] then some i else none
search_from p (c ∷ s) i = if starts_with p (c ∷ s) then some i else search_from p s (suc i)

-- `s.find(p, pos)`.
abbrev pub find_from : Text → Text → ℕ → Option ℕ
find_from s p pos = search_from p (drop pos s) pos

abbrev pub contains : Text → Text → Bool
contains s p = elim (find_from s p 0) [ none ↦ false | some _ ↦ true ]

abbrev pub is_alpha : ℕ → Bool
is_alpha c = (leb b'a' c && leb c b'z') || (leb b'A' c && leb c b'Z')

abbrev pub is_digit : ℕ → Bool
is_digit c = leb b'0' c && leb c b'9'

abbrev pub is_space : ℕ → Bool
is_space c = nat_eq c b' ' || (leb 9 c && leb c 13)

-- `isIdentifierChar`: a character that can stand in a Lua identifier.
unfoldable pub is_identifier_char : ℕ → Bool
is_identifier_char c = (is_alpha c || is_digit c) || nat_eq c b'_'

unfoldable pub to_lower : ℕ → ℕ
to_lower c = if leb b'A' c && leb c b'Z' then c + 32 else c

unfoldable pub to_lower_ascii : Text → Text
unfolding to_lower
to_lower_ascii s = map to_lower s
