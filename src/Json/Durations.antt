-- ===== src/Json/Durations.antt =====
-- The durations of json_loader.cpp: texts such as "1000ms", "5s" and "1m".
use fast_rules.Base.{
  ℕ, ◌+◌, ◌-◌, ◌*◌, Bool, true, false, ◌&&◌, Option, none, some, if◌then◌else◌, ◌==◌, ltb, leb, [],
  ◌∷◌, nat_eq, length, take, drop,
}
use fast_rules.Base.Int.{ℤ, pos, negsuc}
use fast_rules.Base.Text.{Text, Text_eq, codes}
use fast_rules.Base.Parse.{skip_spaces, read_number, negative}

abbrev long_range : Bool → Option ℕ → Option ℤ
long_range is_negative none = none
long_range true (some n) = if leb n 9223372036854775808 then some (negative n) else none
long_range false (some n) = if ltb n 9223372036854775808 then some (pos n) else none

abbrev read_long : Text → Option ℤ
read_long [] = none
read_long (c ∷ s) =
    if nat_eq c b'-'
    then long_range true (read_number s)
    else if nat_eq c b'+'
    then long_range false (read_number s)
    else long_range false (read_number (c ∷ s))

-- `std::stoll`; none is an exception.
unfoldable pub stoll : Text → Option ℤ
stoll s = read_long (skip_spaces s)

unfoldable pub ends_with : Text → Text → Bool
ends_with s suffix = leb (length suffix) (length s) && drop (length s - length suffix) s == suffix

-- The number before a unit of so many milliseconds; `unit` is never 0. A product that does not fit the
-- 64 bits of `std::chrono::milliseconds` is undefined in C++, and is the plain product here.
abbrev scale : ℕ → ℤ → ℤ
scale unit (pos n) = pos (n * unit)
scale unit (negsuc n) = negsuc ((n + 1) * unit - 1)

-- What the text of a duration comes to: none if its unit is unknown.
pub data Duration : Type 0 where
  unknown_unit : Duration
  not_a_number : Duration
  milliseconds : ℤ → Duration

abbrev in_unit : ℕ → Option ℤ → Duration
in_unit unit none = not_a_number
in_unit unit (some n) = milliseconds (scale unit n)

abbrev without_last : ℕ → Text → Text
without_last n s = take (length s - n) s

unfoldable pub read_duration : Text → Duration
unfolding stoll ends_with
read_duration s =
    if ends_with s (codes "ms")
    then in_unit 1 (stoll (without_last 2 s))
    else if ends_with s (codes "s")
    then in_unit 1000 (stoll (without_last 1 s))
    else if ends_with s (codes "m")
    then in_unit 60000 (stoll (without_last 1 s))
    else unknown_unit
