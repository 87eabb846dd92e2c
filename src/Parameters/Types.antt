-- ===== src/Parameters/Types.antt =====
-- Which parameters pass ParameterValidator::validateTypes.
use fast_rules.Base.{
  ◌≡◌, ◌↔◌, refl, arith, List, [], ◌∷◌, true, none, some, All, Option-cases, Bool-cases, inl, inr,
}
use fast_rules.Parameters.{
  CppType, RuleParameter, Platform, value_matches_type_index, validate_types,
}

-- A parameter declares no type, is nil, or has a value that its type admits.
abbrev pub IsTyped : {F : Type 0} → RuleParameter F → Type 0
IsTyped p = (t : CppType) → p.declared ≡ some t → value_matches_type_index t p.value ≡ true

-- No exception is thrown exactly if every parameter that declares a type holds a value that
-- matches it.
pub validate_types_iff :
    {F : Type 0}
    → (platform : Platform F) (ps : List (RuleParameter F))
    → (validate_types platform ps ≡ none) ↔ All IsTyped ps
unfolding validate_types
validate_types_iff platform [] = (λ e. tt, λ h. refl)
validate_types_iff platform (p ∷ ps) = elim (Option-cases p.declared) [
  | inl e ↦ (
    λ h. (λ t d. cc, (validate_types_iff platform ps).0 (rw e at h)),
    λ h. rw e ((validate_types_iff platform ps).1 h.1),
  )
  | inr (t, e) ↦ elim (Bool-cases (value_matches_type_index t p.value)) [
    | inl m ↦ (
      λ h. (λ u d. ground (arith, d, e, m), (validate_types_iff platform ps).0 (rw (e, m) at h)),
      λ h. rw (e, m) ((validate_types_iff platform ps).1 h.1),
    )
    | inr f ↦ (λ h. absurd (cc (rw (e, f) at h)), λ h. absurd (cc (h.0 t e)))
  ]
]
