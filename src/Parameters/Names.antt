-- ===== src/Parameters/Names.antt =====
-- ParameterValidator::valueMatchesType and getSupportedTypes of src/parameter_validator.cpp: the check
-- by the name of a type.
use fast_rules.Base.{ℕ, List, [], ◌∷◌, Bool, true, ◌||◌, Option, none, some, if◌then◌else◌, ◌==◌}
use fast_rules.Base.Text.{Text, Text_eq, codes}
use fast_rules.Parameters.{
  CppType, long_type, long_long_type, user_type, type_eq, Value, type_of, is_int, is_double,
  is_bool, is_string,
}

-- The arguments are the indices of `std::vector<int>`, `<double>` and `<std::string>` among the types.
unfoldable pub matches_name : (ints doubles strings : ℕ) → Text → CppType → Bool
unfolding is_int is_double is_bool is_string
matches_name ints doubles strings declared t =
    if (declared == codes "int") || (declared == codes "integer")
    then is_int t
    else if (declared == codes "long" || declared == codes "long long") || declared == codes "int64"
    then type_eq t long_type || type_eq t long_long_type
    else if (declared == codes "double" || declared == codes "float") || declared == codes "number"
    then is_double t || is_int t
    else if (declared == codes "bool") || (declared == codes "boolean")
    then is_bool t
    else if (declared == codes "string" || declared == codes "std::string")
        || declared == codes "str"
    then is_string t
    else if (declared == codes "array" || declared == codes "list") || declared == codes "vector"
    then (type_eq t (user_type ints) || type_eq t (user_type doubles))
      || type_eq t (user_type strings)
    else if (declared == codes "optional") || (declared == codes "nullable")
    then true
    else true

unfoldable pub value_matches_type :
    (ints doubles strings : ℕ) → {F : Type 0} → Text → Option (Value F) → Bool
unfolding matches_name
value_matches_type ints doubles strings declared none = true
value_matches_type ints doubles strings declared (some v) =
    matches_name ints doubles strings declared (type_of v)

abbrev pub get_supported_types : List Text
get_supported_types =
    codes "int"
    ∷ codes "integer"
    ∷ codes "long"
    ∷ codes "long long"
    ∷ codes "int64"
    ∷ codes "double"
    ∷ codes "float"
    ∷ codes "number"
    ∷ codes "bool"
    ∷ codes "boolean"
    ∷ codes "string"
    ∷ codes "std::string"
    ∷ codes "str"
    ∷ codes "array"
    ∷ codes "list"
    ∷ codes "vector"
    ∷ codes "optional"
    ∷ codes "nullable"
    ∷ []
