-- ===== src/Base/Parse.antt =====
-- `std::stoi` for a 32-bit `int`, and that it reads what `std::to_string` writes.
use fast_rules.Base.Tests.{ltb, leb, nat_eq, if◌then◌else◌, pick_true, pick_false}
use fast_rules.Base.Int.{ℤ, pos, negsuc}
use fast_rules.Base.Text.{Text, digits, to_string}
use fast_rules.Base.Search.{is_digit, is_space}
use Prim.Native.Nat.{ℕ, zero, suc, ◌+◌, ◌-◌, ◌*◌, ◌/◌, ◌%◌, ◌<◌}
use mathlib.Core.Path.{◌≡◌, sym, ap, ◌∙◌}
use mathlib.Core.Bool.{Bool, true, false}
use mathlib.Core.Option.{Option, none, some}
use mathlib.Core.List.{[], ◌∷◌}
use native.Mathlib.Omega.{arith}
use native.Mathlib.Decide.{dec_lt}

abbrev pub skip_spaces : Text → Text
skip_spaces [] = []
skip_spaces (c ∷ s) = if is_space c then skip_spaces s else c ∷ s

-- The number that the leading digits write, behind digits of the value `n`.
abbrev pub read_digits : ℕ → Text → ℕ
read_digits n [] = n
read_digits n (c ∷ s) = if is_digit c then read_digits (n * 10 + (c - 48)) s else n

abbrev pub read_number : Text → Option ℕ
read_number [] = none
read_number (c ∷ s) = if is_digit c then some (read_digits 0 (c ∷ s)) else none

abbrev pub negative : ℕ → ℤ
negative zero = pos 0
negative (suc n) = negsuc n

abbrev pub in_range : Bool → Option ℕ → Option ℤ
in_range is_negative none = none
in_range true (some n) = if leb n 2147483648 then some (negative n) else none
in_range false (some n) = if ltb n 2147483648 then some (pos n) else none

abbrev pub read_signed : Text → Option ℤ
read_signed [] = none
read_signed (c ∷ s) =
    if nat_eq c b'-'
    then in_range true (read_number s)
    else if nat_eq c b'+'
    then in_range false (read_number s)
    else in_range false (read_number (c ∷ s))

-- It throws where no digit stands first, and for a number out of the range of `int`.
unfoldable pub stoi : Text → Option ℤ
stoi s = read_signed (skip_spaces s)

-- The values of an `int`.
abbrev pub IsInt : ℤ → Type 0
IsInt (pos n) = n < 2147483648
IsInt (negsuc n) = n < 2147483648

-- A digit adds its value behind the number read so far.
read_digits-digit :
    (m d : ℕ) (rest : Text)
    → d < 10
    → read_digits m ((d + 48) ∷ rest) ≡ read_digits (m * 10 + d) rest
read_digits-digit m d rest h =
    let e : d + 48 - 48 ≡ d = omega arith in
    pick_true (is_digit (d + 48)) (read_digits (m * 10 + (d + 48 - 48)) rest) m (ground arith)
    ∙ ap (λ k. read_digits (m * 10 + k) rest) e

read_digits-digits :
    (fuel n : ℕ) (rest : Text) → n < fuel → read_digits 0 (digits fuel n rest) ≡ read_digits n rest
unfolding digits
read_digits-digits zero n rest h = absurd (omega arith)
read_digits-digits (suc fuel) n rest h = elim (dec_lt n 10) [
  | yes lt ↦
      let e : 0 * 10 + n % 10 ≡ n = omega arith in
      rw
        (pick_true (ltb n 10) ((n % 10 + 48) ∷ rest) (digits fuel (n / 10) ((n % 10 + 48) ∷ rest))
          (ground arith))
        (read_digits-digit 0 (n % 10) rest (omega arith) ∙ ap (λ k. read_digits k rest) e)
  | no ge ↦
      let e : n / 10 * 10 + n % 10 ≡ n = omega arith in
      rw
        (pick_false (ltb n 10) ((n % 10 + 48) ∷ rest) (digits fuel (n / 10) ((n % 10 + 48) ∷ rest))
          (ground arith))
        (read_digits-digits fuel (n / 10) ((n % 10 + 48) ∷ rest) (omega arith)
          ∙ read_digits-digit (n / 10) (n % 10) rest (omega arith)
          ∙ ap (λ k. read_digits k rest) e)
]

-- What `digits` returns starts with a digit.
digits-head :
    (fuel n : ℕ) (rest : Text)
    → n < fuel
    → (c : ℕ) × (s : Text) × (digits fuel n rest ≡ c ∷ s) × (is_digit c ≡ true)
unfolding digits
digits-head zero n rest h = absurd (omega arith)
digits-head (suc fuel) n rest h = elim (dec_lt n 10) [
  | yes lt ↦ (
    n % 10 + 48,
    rest,
    pick_true (ltb n 10) ((n % 10 + 48) ∷ rest) (digits fuel (n / 10) ((n % 10 + 48) ∷ rest))
        (ground arith),
    ground arith,
  )
  | no ge ↦
      rw
        (pick_false (ltb n 10) ((n % 10 + 48) ∷ rest) (digits fuel (n / 10) ((n % 10 + 48) ∷ rest))
          (ground arith))
        (digits-head fuel (n / 10) ((n % 10 + 48) ∷ rest) (omega arith))
]

read_number-cons :
    (c : ℕ) (s : Text) (n : ℕ)
    → is_digit c ≡ true
    → read_digits 0 (c ∷ s) ≡ n
    → read_number (c ∷ s) ≡ some n
read_number-cons c s n h e =
    pick_true (is_digit c) (some (read_digits 0 (c ∷ s))) none h ∙ ap some e

read_number-digits : (fuel n : ℕ) → n < fuel → read_number (digits fuel n []) ≡ some n
read_number-digits fuel n h =
    let start = digits-head fuel n [] h in
    let value = ap (read_digits 0) (sym start.2) ∙ read_digits-digits fuel n [] h in
    rw start.2 (read_number-cons start.0 start.1 n start.3 value)

read_signed-digit :
    (c : ℕ) (s : Text)
    → is_digit c ≡ true
    → read_signed (skip_spaces (c ∷ s)) ≡ in_range false (read_number (c ∷ s))
read_signed-digit c s h =
    ap read_signed (pick_false (is_space c) (skip_spaces s) (c ∷ s) (ground arith))
    ∙ pick_false (nat_eq c b'-') _ _ (ground arith)
    ∙ pick_false (nat_eq c b'+') _ _ (ground arith)

read_signed-digits :
    (fuel n : ℕ) → n < fuel → read_signed (skip_spaces (digits fuel n [])) ≡ in_range false (some n)
read_signed-digits fuel n h =
    let start = digits-head fuel n [] h in
    rw start.2 (read_signed-digit start.0 start.1 start.3)
    ∙ ap (λ t. in_range false (read_number t)) (sym start.2)
    ∙ ap (in_range false) (read_number-digits fuel n h)

-- What `to_string` writes of an `int`, `stoi` reads.
pub stoi-to_string : (n : ℤ) → IsInt n → stoi (to_string n) ≡ some n
unfolding stoi to_string
stoi-to_string (pos n) h =
    read_signed-digits (n + 1) n (omega arith)
    ∙ pick_true (ltb n 2147483648) (some (pos n)) none (ground arith)
stoi-to_string (negsuc n) h =
    let e : n + 1 ≡ suc n = omega arith in
    ap (in_range true) (read_number-digits (n + 2) (n + 1) (omega arith))
    ∙ pick_true (leb (n + 1) 2147483648) (some (negative (n + 1))) none (ground arith)
    ∙ ap (λ k. some (negative k)) e
