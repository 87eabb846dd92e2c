-- ===== src/Expression/Verdict.antt =====
-- When ExpressionValidator::validate accepts an expression.
use fast_rules.Base.{
  ◌≡◌, refl, ap, ◌∙◌, List, [], ◌∷◌, ◌++◌, Bool, true, false, not, ◌&&◌, none, if◌then◌else◌, arith,
  is_empty, ◌==◌, ℕ_eq, map,
}
use fast_rules.Base.Text.{Text, codes}
use fast_rules.Base.Search.{to_lower_ascii}
use fast_rules.Expression.{
  contains_at_identifier_boundary, get_dangerous_patterns, find_among, find_dangerous_patterns,
  count_char, in_string, bracket_errors, error_if, errors_of, validate,
}

is_empty-append {ℓ} :
    {A : Type ℓ} (xs ys : List A) → is_empty (xs ++ ys) ≡ (is_empty xs && is_empty ys)
is_empty-append [] ys = refl
is_empty-append (x ∷ xs) ys = refl

is_empty-map {ℓ κ} :
    {A : Type ℓ} {B : Type κ} (f : A → B) (xs : List A) → is_empty (map f xs) ≡ is_empty xs
is_empty-map f [] = refl
is_empty-map f (x ∷ xs) = refl

-- No pattern of the table stands alone in the text.
abbrev pub lacks : Text → List (Text × Text) → Bool
lacks s [] = true
lacks s ((p, d) ∷ ps) = not (contains_at_identifier_boundary s p) && lacks s ps

is_empty-find_among : (ps : List (Text × Text)) (s : Text) → is_empty (find_among ps s) ≡ lacks s ps
unfolding find_among
is_empty-find_among [] s = refl
is_empty-find_among ((p, d) ∷ ps) s = ground (arith, is_empty-find_among ps s)

-- As many opening as closing brackets of each kind.
abbrev pub brackets_match : Text → Bool
brackets_match e =
    (count_char b'(' e == count_char b')' e)
    && ((count_char b'[' e == count_char b']' e) && (count_char b'{' e == count_char b'}' e))

is_empty-bracket_errors : (e : Text) → is_empty (bracket_errors e) ≡ brackets_match e
is_empty-bracket_errors e = ground arith

is_empty-error_if : (b : Bool) (msg : Text) → is_empty (error_if b msg) ≡ not b
is_empty-error_if true msg = refl
is_empty-error_if false msg = refl

and_assoc : (a b c : Bool) → ((a && b) && c) ≡ (a && (b && c))
and_assoc true b c = refl
and_assoc false b c = refl

is_empty-append_three {ℓ} :
    {A : Type ℓ} (xs ys zs : List A)
    → is_empty (xs ++ ys ++ zs) ≡ (is_empty xs && (is_empty ys && is_empty zs))
is_empty-append_three xs ys zs =
    rw (is_empty-append (xs ++ ys) zs, is_empty-append xs ys)
      (and_assoc (is_empty xs) (is_empty ys) (is_empty zs))

is_empty-found :
    (s : Text)
    → is_empty
        (map (◌++◌ (codes "Dangerous pattern detected: ")) (find_among get_dangerous_patterns s))
      ≡ lacks s get_dangerous_patterns
is_empty-found s =
    is_empty-map (◌++◌ (codes "Dangerous pattern detected: ")) (find_among get_dangerous_patterns s)
    ∙ is_empty-find_among get_dangerous_patterns s

is_empty-errors_of :
    (e : Text)
    → is_empty (errors_of e) ≡ (
        lacks (to_lower_ascii e) get_dangerous_patterns
        && (brackets_match e && not (in_string none none e)))
unfolding errors_of find_dangerous_patterns
is_empty-errors_of e =
    is_empty-append_three
      (map (◌++◌ (codes "Dangerous pattern detected: "))
        (find_among get_dangerous_patterns (to_lower_ascii e)))
      (bracket_errors e) (error_if (in_string none none e) (codes "Unclosed string literal"))
    ∙ ap
        (λ b.
          b
          && (is_empty (bracket_errors e)
              && is_empty (error_if (in_string none none e) (codes "Unclosed string literal"))))
        (is_empty-found (to_lower_ascii e))
    ∙ ap
        (λ b.
          lacks (to_lower_ascii e) get_dangerous_patterns
          && (b && is_empty (error_if (in_string none none e) (codes "Unclosed string literal"))))
        (is_empty-bracket_errors e)
    ∙ ap (λ b. lacks (to_lower_ascii e) get_dangerous_patterns && (brackets_match e && b))
        (is_empty-error_if (in_string none none e) (codes "Unclosed string literal"))

-- An expression is accepted exactly if it is empty, or holds no dangerous pattern as a whole
-- identifier (in any case of its letters), as many opening as closing brackets of each kind, and
-- no string literal that the quote scan leaves open. An expression with an error is not valid.
pub validate-valid :
    (e : Text)
    → (validate e).valid ≡ (
        if is_empty e
        then true
        else lacks (to_lower_ascii e) get_dangerous_patterns
          && (brackets_match e && not (in_string none none e)))
unfolding validate
validate-valid [] = refl
validate-valid (c ∷ s) = is_empty-errors_of (c ∷ s)
