-- ===== src/Execution/Key.antt =====
-- Rule::buildCacheKey and Rule::sourceFingerprint of src/rule.cpp.
use Prim.Native.Nat.{bit_xor}
use fast_rules.Base.{ℕ, ◌+◌, ◌*◌, ◌/◌, ◌%◌, List, [], ◌∷◌, ◌++◌, true, false, Option, none, some}
use fast_rules.Base.Int.{ℤ}
use fast_rules.Base.Text.{Text, codes, to_string}
use fast_rules.Counters.{word}
use fast_rules.Parameters.{
  Value, int_value, short_value, long_value, long_long_value, float_value, double_value,
  long_double_value, bool_value, string_value, chars_value, other_value, CppType, short_type,
  long_double_type, RuleParameter, Platform,
}
use fast_rules.Rule.{Info}

module _ {F : Type 0} (platform : Platform F) where
  -- Values of other types are known by their type alone.
  abbrev pub type_key : Option CppType → CppType → Text
  type_key none t = codes "unknown" ++ b'@' ∷ to_string (ℤ.pos (platform.hash_code t))
  type_key (some d) t = platform.type_name d ++ b'@' ∷ to_string (ℤ.pos (platform.hash_code t))

  unfoldable pub value_key : Option CppType → Value F → Text
  unfolding to_string
  value_key declared (int_value n) = to_string n
  value_key declared (short_value n) = type_key declared short_type
  value_key declared (long_value n) = to_string n
  value_key declared (long_long_value n) = to_string n
  value_key declared (float_value x) = platform.print_float x
  value_key declared (double_value x) = platform.print_float x
  value_key declared (long_double_value x) = type_key declared long_double_type
  value_key declared (bool_value true) = b'1' ∷ []
  value_key declared (bool_value false) = b'0' ∷ []
  value_key declared (string_value s) = s
  value_key declared (chars_value s) = s
  value_key declared (other_value t) = type_key declared t

  abbrev pub parameter_key : RuleParameter F → Text
  parameter_key p =
      p.name
      ++ b'=' ∷ (elim p.value [ none ↦ codes "nil" | some v ↦ value_key p.declared v ] ++ b';' ∷ [])

  abbrev pub parameters_key : List (RuleParameter F) → Text
  parameters_key [] = []
  parameters_key (p ∷ ps) = parameter_key p ++ parameters_key ps

  unfoldable pub build_cache_key : Info → List (RuleParameter F) → Text
  unfolding value_key
  build_cache_key r ps = to_string r.id ++ b'|' ∷ parameters_key ps

  -- The hash of the action is mixed into that of the expression, in 64 bits.
  unfoldable pub source_fingerprint : Info → ℕ
  source_fingerprint r =
      let h = platform.hash r.expression in
      bit_xor h ((platform.hash r.action + 0x9e3779b9 + (h * 64) % word + h / 4) % word)
