-- ===== src/Json.antt =====
-- extensions/json/src/json_loader.cpp: reading rules and workflows from JSON values, and writing them.
-- The JSON library is an interface, with what the code relies on as its laws; parsing and printing the
-- text of a value are its calls. Files are left out.
pub mod Durations
pub mod Load
pub mod Save
pub mod Saved
pub mod Trees
pub mod RoundTrip
pub mod Repository
pub mod Stored
pub mod Map
pub mod Items
pub mod Lookup
use fast_rules.Base.{
  ℕ, ◌<◌, ◌≡◌, List, [], ◌∷◌, Bool, true, false, Option, none, some, if◌then◌else◌, ◌==◌,
}
use fast_rules.Base.Int.{ℤ, pos, negsuc, ℤ_eq}
use fast_rules.Base.Text.{Text, Text_eq}
use fast_rules.Base.Parse.{IsInt}

-- The values of a 64-bit count of milliseconds.
abbrev pub IsLong : ℤ → Type 0
IsLong (pos n) = n < 9223372036854775808
IsLong (negsuc n) = n < 9223372036854775808

-- The value that the last of some assignments gives a key.
abbrev pub assigned {ℓ} : {V : Type ℓ} → Text → List (Text × V) → Option V
assigned key [] = none
assigned key ((k, v) ∷ fields) = elim (assigned key fields) [
  | none ↦ if k == key then some v else none
  | some w ↦ some w
]

-- `object` is what the assignments `j[key] = value` make of a new value. `find` is `contains` with the
-- value that is there; it finds nothing in a value that is no object. The `as_…` are the tests of the
-- type of a value with its conversion; `as_number` is that to a count of milliseconds.
-- `same` is the comparison of values; that with an `int` compares with `from_int` of it.
pub record JsonLibrary : Type 1 where
  pub Value : Type 0
  pub null : Value
  pub from_int : ℤ → Value
  pub from_text : Text → Value
  pub from_bool : Bool → Value
  pub from_list : List Value → Value
  pub object : List (Text × Value) → Value
  pub find : Text → Value → Option Value
  pub is_null : Value → Bool
  pub as_int : Value → Option ℤ
  pub as_long : Value → Option ℤ
  pub as_number : Value → Option ℤ
  pub as_text : Value → Option Text
  pub as_bool : Value → Option Bool
  pub as_list : Value → Option (List Value)
  pub same : Value → Value → Bool
  pub parse : Text → Option Value
  pub dump : Value → Text
  pub find_object :
      (key : Text) (fields : List (Text × Value)) → find key (object fields) ≡ assigned key fields
  pub null_back : is_null null ≡ true
  pub int_back : (n : ℤ) → IsInt n → as_int (from_int n) ≡ some n
  pub long_back : (n : ℤ) → IsLong n → as_long (from_int n) ≡ some n
  pub number_back : (n : ℤ) → IsLong n → as_number (from_int n) ≡ some n
  pub number_set : (n : ℤ) → is_null (from_int n) ≡ false
  pub text_back : (s : Text) → as_text (from_text s) ≡ some s
  pub text_null : as_text null ≡ none
  pub bool_back : (b : Bool) → as_bool (from_bool b) ≡ some b
  pub list_back : (vs : List Value) → as_list (from_list vs) ≡ some vs
  pub same_ints : (m n : ℤ) → same (from_int m) (from_int n) ≡ (m == n)
