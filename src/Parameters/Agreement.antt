-- ===== src/Parameters/Agreement.antt =====
-- The check by the name of a type and the check by its index.
use fast_rules.Base.{
  ℕ, ◌≡◌, refl, sym, ◌∙◌, subst, some_injective, arith, List, [], ◌∷◌, true, false, Option-cases,
  inl, inr, All, none, some, if◌then◌else◌, Bool, ◌||◌,
}
use fast_rules.Base.Text.{Text, Text_eq, codes}
use fast_rules.Parameters.{
  CppType, int_type, long_type, long_long_type, double_type, float_type, bool_type, string_type,
  type_eq, is_int, is_double, RuleParameter, Platform, type_of, matches_type,
  value_matches_type_index, validate_types,
}
use fast_rules.Parameters.Names.{matches_name, value_matches_type}
use fast_rules.Parameters.Types.{IsTyped, validate_types_iff}

-- The names of scalar types and the types that they name.
pub data Names : Text → CppType → Type 0 where
  int_name : Names (codes "int") int_type
  integer_name : Names (codes "integer") int_type
  long_name : Names (codes "long") long_type
  long_long_name : Names (codes "long long") long_long_type
  int64_name : Names (codes "int64") long_long_type
  double_name : Names (codes "double") double_type
  float_name : Names (codes "float") float_type
  number_name : Names (codes "number") double_type
  bool_name : Names (codes "bool") bool_type
  boolean_name : Names (codes "boolean") bool_type
  string_name : Names (codes "string") string_type
  std_string_name : Names (codes "std::string") string_type
  str_name : Names (codes "str") string_type

-- A test that comes before a last one leaves what the last one admits.
let_through :
    (same beyond last : Bool)
    → last ≡ true
    → (if same then true else if beyond then true else last) ≡ true
let_through true beyond last h = refl
let_through false true last h = refl
let_through false false last h = h

numeric : (i d b : Bool) → d || i ≡ true → (i || d) || b ≡ true
numeric i d b h = ground (arith, h)

from_int : (i d b : Bool) → i ≡ true → (i || d) || b ≡ true
from_int i d b h = ground (arith, h)

long-is_int :
    (t : CppType) → type_eq t long_type || type_eq t long_long_type ≡ true → is_int t ≡ true
unfolding is_int
long-is_int t h = ground (arith, h)

module _ (ints doubles strings : ℕ) where
  matches_name-matches_type :
      (name : Text) (declared : CppType)
      → Names name declared
      → (t : CppType) → matches_name ints doubles strings name t ≡ true
      → matches_type declared t ≡ true
  unfolding matches_name matches_type
  matches_name-matches_type name declared int_name t h =
      let_through _ _ _ (from_int (is_int t) _ _ h)
  matches_name-matches_type name declared integer_name t h =
      let_through _ _ _ (from_int (is_int t) _ _ h)
  matches_name-matches_type name declared long_name t h =
      let_through _ _ _ (from_int (is_int t) _ _ (long-is_int t h))
  matches_name-matches_type name declared long_long_name t h =
      let_through _ _ _ (from_int (is_int t) _ _ (long-is_int t h))
  matches_name-matches_type name declared int64_name t h =
      let_through _ _ _ (from_int (is_int t) _ _ (long-is_int t h))
  matches_name-matches_type name declared double_name t h =
      let_through _ _ _ (numeric (is_int t) (is_double t) _ h)
  matches_name-matches_type name declared float_name t h =
      let_through _ _ _ (numeric (is_int t) (is_double t) _ h)
  matches_name-matches_type name declared number_name t h =
      let_through _ _ _ (numeric (is_int t) (is_double t) _ h)
  matches_name-matches_type name declared bool_name t h = let_through _ _ _ h
  matches_name-matches_type name declared boolean_name t h = let_through _ _ _ h
  matches_name-matches_type name declared string_name t h = let_through _ _ _ h
  matches_name-matches_type name declared std_string_name t h = let_through _ _ _ h
  matches_name-matches_type name declared str_name t h = let_through _ _ _ h

  -- The parameter declares a type, and its value passes the check by a name of that type.
  abbrev pub IsNamed : {F : Type 0} → RuleParameter F → Type 0
  IsNamed p =
      (name : Text) × (t : CppType) × Names name t
      × (p.declared ≡ some t)
      × (value_matches_type ints doubles strings name p.value ≡ true)

  IsNamed-IsTyped : {F : Type 0} → (p : RuleParameter F) → IsNamed p → IsTyped p
  unfolding value_matches_type value_matches_type_index
  IsNamed-IsTyped p (name, t, n, d, h) u e = elim (Option-cases p.value) [
    | inl none_there ↦ rw none_there refl
    | inr (v, there) ↦ rw there (
        subst (λ s. matches_type s (type_of v) ≡ true) (some_injective (sym d ∙ e))
          (matches_name-matches_type name t n (type_of v) (rw there at h)))
  ]

  All-IsTyped : {F : Type 0} → (ps : List (RuleParameter F)) → All IsNamed ps → All IsTyped ps
  All-IsTyped [] h = tt
  All-IsTyped (p ∷ ps) h = (IsNamed-IsTyped p h.0, All-IsTyped ps h.1)

  -- Where each parameter declares a scalar type and its value passes valueMatchesType under a name
  -- of that type, validateTypes throws no exception.
  pub named-validate_types :
      {F : Type 0}
      → (platform : Platform F) (ps : List (RuleParameter F)) → All IsNamed ps
      → validate_types platform ps ≡ none
  named-validate_types platform ps h = (validate_types_iff platform ps).1 (All-IsTyped ps h)
