-- ===== src/Input/Parameter/Clean.antt =====
-- Which names and values the sanitising of ParameterValidator returns.
use fast_rules.Base.{
  ℕ, zero, suc, ◌≤◌, ◌≡◌, refl, subst, ◌↔◌, List, [], ◌∷◌, Bool, true, false, not, ◌||◌, none,
  arith, ◌==◌, ℕ_eq, length, length-take-le, take, is_empty, any, all, keep,
}
use fast_rules.Base.Text.{Text}
use fast_rules.Base.Search.{is_identifier_char}
use fast_rules.Input.{resize, without_zeros}
use fast_rules.Input.Parameter.{
  ParameterValidator, is_reserved, starts_name, validate_name, validate_value, with_start,
  sanitize_name, sanitize_value,
}

module _ {ℓ} {A : Type ℓ} (p : A → Bool) where
  all-keep : (xs : List A) → all p (keep p xs) ≡ true
  all-keep [] = refl
  all-keep (x ∷ xs) = ground (arith, all-keep xs)

  all-take : (n : ℕ) (xs : List A) → all p xs ≡ true → all p (take n xs) ≡ true
  all-take zero xs h = refl
  all-take (suc n) [] h = refl
  all-take (suc n) (x ∷ xs) h = ground (arith, all-take n xs)

  keep-all : (xs : List A) → all p xs ≡ true → keep p xs ≡ xs
  keep-all [] h = refl
  keep-all (x ∷ xs) h = ground (arith, keep-all xs)

length-resize-le : (n : ℕ) (s : Text) → length (resize n s) ≤ n
length-resize-le n s = ground (arith, length-take-le n s)

-- A sanitised name: short enough, starting as a name does unless it is empty, of identifier
-- characters.
abbrev IsClean : ParameterValidator → Text → Type 0
IsClean v s =
    length s ≤ v.max_parameter_name_length
    × ((is_empty s || starts_name s) ≡ true)
    × (all is_identifier_char s ≡ true)

starts_name-take :
    (n : ℕ) (s : Text)
    → (is_empty s || starts_name s) ≡ true
    → (is_empty (take n s) || starts_name (take n s)) ≡ true
starts_name-take zero s h = refl
starts_name-take (suc n) [] h = refl
starts_name-take (suc n) (c ∷ s) h = h

with_start-starts : (s : Text) → (is_empty (with_start s) || starts_name (with_start s)) ≡ true
with_start-starts [] = refl
with_start-starts (c ∷ s) = ground arith

all-with_start :
    (s : Text) → all is_identifier_char s ≡ true → all is_identifier_char (with_start s) ≡ true
unfolding is_identifier_char
all-with_start [] h = refl
all-with_start (c ∷ s) h = ground arith

with_start_fixed : (s : Text) → (is_empty s || starts_name s) ≡ true → with_start s ≡ s
with_start_fixed [] h = refl
with_start_fixed (c ∷ s) h = ground arith

sanitize_name-IsClean : (v : ParameterValidator) (s : Text) → IsClean v (sanitize_name v s)
unfolding sanitize_name
sanitize_name-IsClean v s =
    let t = with_start (keep is_identifier_char s) in
    let starts = with_start-starts (keep is_identifier_char s) in
    let chars = all-with_start (keep is_identifier_char s) (all-keep is_identifier_char s) in
    let n = v.max_parameter_name_length in
    (
      length-resize-le n t,
      ground (arith, starts_name-take n t starts, starts),
      ground (arith, all-take is_identifier_char n t chars, chars),
    )

resize_fixed : (n : ℕ) (s : Text) → length s ≤ n → resize n s ≡ s
resize_fixed n s h = ground arith

IsClean-fixed : (v : ParameterValidator) (s : Text) → IsClean v s → sanitize_name v s ≡ s
unfolding sanitize_name
IsClean-fixed v s h =
    rw (keep-all is_identifier_char s h.2, with_start_fixed s h.1)
      (resize_fixed v.max_parameter_name_length s h.0)

-- Sanitising a name a second time changes nothing.
pub sanitize_name_idempotent :
    (v : ParameterValidator) (s : Text) → sanitize_name v (sanitize_name v s) ≡ sanitize_name v s
sanitize_name_idempotent v s = IsClean-fixed v (sanitize_name v s) (sanitize_name-IsClean v s)

validate_name-IsClean :
    (v : ParameterValidator) (s : Text)
    → (validate_name v s ≡ none) ↔ ((is_empty s ≡ false) × (is_reserved v s ≡ false) × IsClean v s)
unfolding validate_name
validate_name-IsClean v s = ground arith

-- A name passes the check exactly if it is not empty, not reserved, and left as it is by the
-- sanitising.
pub validate_name_iff :
    (v : ParameterValidator) (s : Text)
    → (validate_name v s ≡ none)
      ↔ ((is_empty s ≡ false) × (is_reserved v s ≡ false) × (sanitize_name v s ≡ s))
validate_name_iff v s =
    let clean = validate_name-IsClean v s in
    (
      λ h. let r = clean.0 h in (r.0, r.1, IsClean-fixed v s r.2),
      λ h. clean.1 (h.0, h.1, subst (IsClean v) h.2 (sanitize_name-IsClean v s)),
    )

abbrev has_no_zero : Text → Bool
has_no_zero s = all (λ c. not (c == 0)) s

any_zero : (s : Text) → any (λ c. c == 0) s ≡ not (has_no_zero s)
any_zero [] = refl
any_zero (c ∷ s) = ground (arith, any_zero s)

validate_value-none :
    (v : ParameterValidator) (s : Text)
    → (validate_value v s ≡ none)
      ↔ (length s ≤ v.max_parameter_value_length × (has_no_zero s ≡ true))
unfolding validate_value
validate_value-none v s = rw (any_zero s) (ground arith)

-- A sanitised value passes the check, and a value that passes it is left as it is.
pub sanitize_value_valid :
    (v : ParameterValidator) (s : Text)
    → (validate_value v (sanitize_value v s) ≡ none)
      × (validate_value v s ≡ none → sanitize_value v s ≡ s)
unfolding sanitize_value
sanitize_value_valid v s =
    let n = v.max_parameter_value_length in
    let t = without_zeros s in
    let chars : has_no_zero t ≡ true = all-keep (λ c. not (c == 0)) s in
    (
      (validate_value-none v (sanitize_value v s)).1
          (length-resize-le n t, ground (arith, all-take (λ c. not (c == 0)) n t chars, chars)),
      λ h.
          let valid = (validate_value-none v s).0 h in
          rw (keep-all (λ c. not (c == 0)) s valid.1) (resize_fixed n s valid.0),
    )
