-- ===== src/Parameters.antt =====
-- struct RuleParameter of include/fastrules/rule.hpp, and src/parameter_validator.cpp. A `std::any`
-- is none (empty) or a value with its C++ type. The floating-point numbers are a type parameter.
pub mod Types
pub mod Names
pub mod Agreement
use fast_rules.Base.{
  ℕ, ◌+◌, List, [], ◌∷◌, ◌++◌, Bool, true, false, not, ◌&&◌, ◌||◌, Option, none, some,
  if◌then◌else◌, ◌==◌, ℕ_eq,
}
use fast_rules.Base.Int.{ℤ}
use fast_rules.Base.Text.{Text, codes}

-- The types that the code tells apart; `user_type` stands for every other type.
pub data CppType : Type 0 where
  int_type unsigned_type short_type unsigned_short_type : CppType
  long_type unsigned_long_type long_long_type unsigned_long_long_type : CppType
  float_type double_type long_double_type : CppType
  bool_type string_type const_char_type char_type : CppType
  user_type : (index : ℕ) → CppType

abbrev pub tag : CppType → ℕ
tag int_type = 0
tag unsigned_type = 1
tag short_type = 2
tag unsigned_short_type = 3
tag long_type = 4
tag unsigned_long_type = 5
tag long_long_type = 6
tag unsigned_long_long_type = 7
tag float_type = 8
tag double_type = 9
tag long_double_type = 10
tag bool_type = 11
tag string_type = 12
tag const_char_type = 13
tag char_type = 14
tag (user_type index) = index + 15

abbrev pub type_eq : CppType → CppType → Bool
type_eq s t = tag s == tag t

-- A value of a type without a constructor of its own is `other_value`; `chars_value` is the text
-- that a `const char*` points to.
pub data Value (F : Type 0) : Type 0 where
  int_value short_value long_value long_long_value : ℤ → Value F
  float_value double_value long_double_value : F → Value F
  bool_value : Bool → Value F
  string_value chars_value : Text → Value F
  other_value : CppType → Value F

-- `value.type()`.
abbrev pub type_of : {F : Type 0} → Value F → CppType
type_of (int_value n) = int_type
type_of (short_value n) = short_type
type_of (long_value n) = long_type
type_of (long_long_value n) = long_long_type
type_of (float_value x) = float_type
type_of (double_value x) = double_type
type_of (long_double_value x) = long_double_type
type_of (bool_value b) = bool_type
type_of (string_value s) = string_type
type_of (chars_value s) = const_char_type
type_of (other_value t) = t

pub record RuleParameter (F : Type 0) : Type 0 where
  pub name : Text
  pub value : Option (Value F)
  pub declared : Option CppType

-- What the program takes from the compiler and the standard library: `type_info::name` and
-- `hash_code`, `operator<<` for a floating-point number, `std::hash`, and the steady clock (the
-- time of each reading).
pub record Platform (F : Type 0) : Type 0 where
  pub type_name : CppType → Text
  pub hash_code : CppType → ℕ
  pub print_float : F → Text
  pub hash : Text → ℕ
  pub clock : ℕ → ℕ

unfoldable pub is_int : CppType → Bool
is_int t =
    ((type_eq t int_type || type_eq t long_type) || type_eq t long_long_type)
    || type_eq t short_type

unfoldable pub is_double : CppType → Bool
is_double t = (type_eq t double_type || type_eq t float_type) || type_eq t long_double_type

unfoldable pub is_bool : CppType → Bool
is_bool t = type_eq t bool_type

unfoldable pub is_string : CppType → Bool
is_string t = type_eq t string_type || type_eq t const_char_type

unfoldable pub is_string_type_index : CppType → Bool
is_string_type_index t = (type_eq t string_type || type_eq t const_char_type) || type_eq t char_type

unfoldable pub is_numeric_type_index : CppType → Bool
is_numeric_type_index t =
    (((type_eq t int_type || type_eq t unsigned_type)
        || (type_eq t short_type || type_eq t unsigned_short_type))
      || ((type_eq t long_type || type_eq t unsigned_long_type)
          || (type_eq t long_long_type || type_eq t unsigned_long_long_type)))
    || ((type_eq t float_type || type_eq t double_type) || type_eq t long_double_type)

-- `t` is the type of a value that is there.
unfoldable pub matches_type : CppType → CppType → Bool
unfolding is_int is_double is_bool is_string is_string_type_index is_numeric_type_index
matches_type declared t =
    let declared_scalar =
      (is_numeric_type_index declared || is_string_type_index declared)
      || type_eq declared bool_type in
    let value_scalar = ((is_int t || is_double t) || is_bool t) || is_string t in
    if type_eq t declared
    then true
    else if not declared_scalar || not value_scalar
    then true
    else if type_eq declared bool_type
    then is_bool t
    else if is_string_type_index declared
    then is_string t
    else (is_int t || is_double t) || is_bool t

unfoldable pub value_matches_type_index : {F : Type 0} → CppType → Option (Value F) → Bool
unfolding matches_type
value_matches_type_index declared none = true
value_matches_type_index declared (some v) = matches_type declared (type_of v)

module _ {F : Type 0} (platform : Platform F) where
  abbrev pub held_name : Option (Value F) → Text
  held_name none = codes "nil"
  held_name (some v) = platform.type_name (type_of v)

  -- The message of the ParameterTypeException that is thrown, if one is.
  unfoldable pub validate_types : List (RuleParameter F) → Option Text
  unfolding value_matches_type_index
  validate_types [] = none
  validate_types (p ∷ ps) =
      let rest = validate_types ps in
      elim p.declared [
        | none ↦ rest
        | some t ↦
            if value_matches_type_index t p.value
            then rest
            else some (
                codes "Parameter '"
                ++ p.name
                ++ codes "' declared as type '"
                ++ platform.type_name t
                ++ codes "' but value holds '"
                ++ held_name p.value
                ++ codes "'")
      ]
