-- ===== src/Input/Parameter.antt =====
-- ParameterValidator and SecurityConfig of src/input_validator.cpp. A throwing check returns the
-- message of its ValidationException.
pub mod Clean
use fast_rules.Base.{
  ℕ, List, [], ◌∷◌, ◌++◌, Bool, true, false, not, ◌&&◌, ◌||◌, Option, none, some, if◌then◌else◌,
  ◌==◌, ltb, ℕ_eq, ◌*◌, length, is_empty, any, all, keep,
}
use fast_rules.Base.Text.{Text, Text_eq, codes}
use fast_rules.Base.Search.{is_alpha, is_identifier_char, to_lower_ascii}
use fast_rules.Input.{LuaExpressionValidator, new_expression_validator, without_zeros, resize}

pub record ParameterValidator : Type 0 where
  pub reserved_names : List Text
  pub max_parameter_name_length : ℕ
  pub max_parameter_value_length : ℕ

abbrev pub reserved_names : List Text
reserved_names =
    codes "nil"
    ∷ codes "true"
    ∷ codes "false"
    ∷ codes "function"
    ∷ codes "end"
    ∷ codes "if"
    ∷ codes "then"
    ∷ codes "else"
    ∷ codes "elseif"
    ∷ codes "while"
    ∷ codes "for"
    ∷ codes "in"
    ∷ codes "do"
    ∷ codes "repeat"
    ∷ codes "until"
    ∷ codes "break"
    ∷ codes "return"
    ∷ codes "local"
    ∷ codes "goto"
    ∷ codes "and"
    ∷ codes "or"
    ∷ codes "not"
    ∷ codes "self"
    ∷ []

unfoldable pub new_parameter_validator : ParameterValidator
new_parameter_validator = record {
  reserved_names = reserved_names;
  max_parameter_name_length = 100;
  max_parameter_value_length = 10000;
}

unfoldable pub is_reserved : ParameterValidator → Text → Bool
unfolding to_lower_ascii
is_reserved v name = any (λ r. r == to_lower_ascii name) v.reserved_names

-- The test of `name[0]`, which is there.
abbrev pub starts_name : Text → Bool
starts_name [] = false
starts_name (c ∷ s) = is_alpha c || (c == b'_')

unfoldable pub validate_name : ParameterValidator → Text → Option Text
unfolding is_reserved is_identifier_char
validate_name v name =
    if is_empty name
    then some (codes "Parameter name cannot be empty")
    else if ltb v.max_parameter_name_length (length name)
    then some (codes "Parameter name too long")
    else if is_reserved v name
    then some (codes "Parameter name is reserved: " ++ name)
    else if not (starts_name name)
    then some (codes "Parameter name must start with a letter or underscore")
    else if not (all is_identifier_char name)
    then some (codes "Parameter name contains invalid characters")
    else none

unfoldable pub validate_value : ParameterValidator → Text → Option Text
validate_value v value =
    if ltb v.max_parameter_value_length (length value)
    then some (codes "Parameter value too long")
    else if any (λ c. c == 0) value
    then some (codes "Parameter value contains null bytes")
    else none

unfoldable pub validate_parameter : ParameterValidator → Text → Text → Option Text
unfolding validate_name validate_value
validate_parameter v name value = elim (validate_name v name) [
  | none ↦ validate_value v value
  | some message ↦ some message
]

-- An underscore in front of a name that starts with a digit.
abbrev pub with_start : Text → Text
with_start s = if not (is_empty s) && not (starts_name s) then b'_' ∷ s else s

unfoldable pub sanitize_name : ParameterValidator → Text → Text
unfolding is_identifier_char
sanitize_name v name =
    resize v.max_parameter_name_length (with_start (keep is_identifier_char name))

unfoldable pub sanitize_value : ParameterValidator → Text → Text
sanitize_value v value = resize v.max_parameter_value_length (without_zeros value)

pub record SecurityConfig : Type 0 where
  pub expression_validator : LuaExpressionValidator
  pub parameter_validator : ParameterValidator
  pub enable_sandboxing : Bool
  pub max_execution_time_seconds : ℕ
  pub max_memory_bytes : ℕ

-- The expression validator is constructed with its default length.
unfoldable pub new_security_config : SecurityConfig
unfolding new_expression_validator new_parameter_validator
new_security_config = record {
  expression_validator = new_expression_validator 10000;
  parameter_validator = new_parameter_validator;
  enable_sandboxing = true;
  max_execution_time_seconds = 30;
  max_memory_bytes = 1024 * 1024 * 100;
}

unfoldable pub set_sandboxing : Bool → SecurityConfig → SecurityConfig
set_sandboxing enable c = record c { enable_sandboxing = enable }

unfoldable pub set_max_execution_time : ℕ → SecurityConfig → SecurityConfig
set_max_execution_time seconds c = record c { max_execution_time_seconds = seconds }

unfoldable pub set_max_memory : ℕ → SecurityConfig → SecurityConfig
set_max_memory bytes c = record c { max_memory_bytes = bytes }
