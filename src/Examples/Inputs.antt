-- ===== src/Examples/Inputs.antt =====
-- Expressions, names and values that the input validator checks.
use fast_rules.Base.{
  ◌≡◌, refl, ◌↔◌, ◌≤◌, [], ◌∷◌, false, ◌||◌, none, some, length, is_empty, all, any,
}
use fast_rules.Base.Text.{Text, codes}
use fast_rules.Base.Search.{is_space, to_lower_ascii}
use fast_rules.Input.{
  new_expression_validator, matches_pattern, unescape_dots, validate, validate_syntax,
}
use fast_rules.Input.Brackets.{AllBalanced, validate_iff}
use fast_rules.Input.Parameter.{
  new_parameter_validator, validate_value, sanitize_name, sanitize_value,
}
use fast_rules.Input.Parameter.Clean.{sanitize_name_idempotent, sanitize_value_valid}

abbrev sum : Text
sum = codes "(a[1] + b)"

validate_iff_example : (validate (new_expression_validator 100) sum ≡ none) ↔ (
    length sum ≤ (new_expression_validator 100).max_length
    × ((is_empty sum || all is_space sum) ≡ false)
    × (any (matches_pattern (to_lower_ascii sum)) (new_expression_validator 100).dangerous_patterns
        ≡ false)
    × AllBalanced sum)
validate_iff_example = validate_iff (new_expression_validator 100) sum

crossed : validate_syntax (codes ")(") ≡ some (codes "Unbalanced parentheses")
unfolding validate_syntax
crossed = refl

unescaped : unescape_dots (111 ∷ 115 ∷ 92 ∷ 46 ∷ []) ≡ codes "os."
unfolding unescape_dots
unescaped = refl

digit_first : sanitize_name new_parameter_validator (codes "1 a") ≡ codes "_1a"
unfolding sanitize_name new_parameter_validator
digit_first = refl

sanitize_name_idempotent_example :
    sanitize_name new_parameter_validator (sanitize_name new_parameter_validator (codes "1 a"))
    ≡ sanitize_name new_parameter_validator (codes "1 a")
sanitize_name_idempotent_example = sanitize_name_idempotent new_parameter_validator (codes "1 a")

sanitize_value_valid_example :
    (validate_value new_parameter_validator
        (sanitize_value new_parameter_validator (65 ∷ 0 ∷ 66 ∷ []))
      ≡ none)
    × (validate_value new_parameter_validator (65 ∷ 0 ∷ 66 ∷ []) ≡ none
        → sanitize_value new_parameter_validator (65 ∷ 0 ∷ 66 ∷ []) ≡ 65 ∷ 0 ∷ 66 ∷ [])
sanitize_value_valid_example = sanitize_value_valid new_parameter_validator (65 ∷ 0 ∷ 66 ∷ [])
