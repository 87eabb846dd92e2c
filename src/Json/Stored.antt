-- ===== src/Json/Stored.antt =====
-- The rule of an item that a JSON repository stores.
use fast_rules.Base.{
  ◌≡◌, refl, inl, inr, List, [], ◌∷◌, ◌++◌, Bool, true, false, Option, none, some, if◌then◌else◌,
  ◌==◌, eq_iff, Bool-cases, ℕ, sym,
}
use fast_rules.Base.Int.{ℤ}
use fast_rules.Base.Text.{Text, Text_eq, codes}
use fast_rules.Base.Parse.{IsInt}
use fast_rules.Rule.{Info}
use fast_rules.Json.{JsonLibrary, assigned}
use fast_rules.Json.Load.{or_else, and_read}
use fast_rules.Json.Saved.{FitsTime}
use fast_rules.Json.Repository.{
  optional, unless_empty, int_field, text_option, rule_to_json, field, json_to_rule,
}

abbrev pub FitsInt : Option ℤ → Type 0
FitsInt none = Unit
FitsInt (some n) = IsInt n

-- The numbers of a rule can be read back from an item; a timeout is read as an `int`.
pub record IsStorable (r : Info) : Type 0 where
  pub id : IsInt r.id
  pub priority : IsInt r.priority
  pub timeout : FitsInt r.timeout
  pub cache_duration : FitsTime r.cache_duration

-- A stored rule: without its rate limiter, and at an address.
abbrev pub stored_at : ℕ → Info → Info
stored_at self r = record r { self = self; rate_limiter = none }

abbrev later_or {ℓ} : {V : Type ℓ} → Option V → Option V → Option V
later_or none o = o
later_or (some v) o = some v

pick_none {ℓ} : {V : Type ℓ} (o : Option V) (b : Bool) → later_or o (if b then none else none) ≡ o
pick_none none true = refl
pick_none none false = refl
pick_none (some v) b = refl

later_or-none {ℓ} : {V : Type ℓ} (o : Option V) → later_or o none ≡ o
later_or-none none = refl
later_or-none (some v) = refl

later_or-cases {ℓ} :
    {V : Type ℓ} (o p : Option V) → elim o [ none ↦ p | some w ↦ some w ] ≡ later_or o p
later_or-cases none p = refl
later_or-cases (some v) p = refl

-- `assigned`, shut.
seek {ℓ} : {V : Type ℓ} → Text → List (Text × V) → Option V
seek = assigned

seek-nil {ℓ} : {V : Type ℓ} (key : Text) → seek {V = V} key [] ≡ none
unfolding seek
seek-nil key = refl

seek-cons {ℓ} :
    {V : Type ℓ} (key k : Text) (v : V) (fields : List (Text × V))
    → seek key ((k, v) ∷ fields) ≡ later_or (seek key fields) (if k == key then some v else none)
unfolding seek
seek-cons key k v fields = later_or-cases (assigned key fields) _

module _ (library : JsonLibrary) where
  open library use {
    Value, from_text, as_text, as_int, as_long, find_object, text_back, bool_back, int_back,
    long_back,
  }

  find-seek :
      (key : Text) (fields : List (Text × Value))
      → library.find key (library.object fields) ≡ seek key fields
  unfolding seek
  find-seek key fields = find_object key fields

  seek-optional :
      (key k : Text) (o : Option Value) (rest : List (Text × Value))
      → seek key (optional library k o ++ rest)
        ≡ later_or (seek key rest) (if k == key then o else none)
  unfolding seek optional
  seek-optional key k none rest = sym (pick_none (assigned key rest) (k == key))
  seek-optional key k (some v) rest = later_or-cases (assigned key rest) _

  text_of_unless_empty : (s : Text) → or_else (and_read (unless_empty library s) as_text) [] ≡ s
  text_of_unless_empty s = elim (Bool-cases (s == [])) [
    | inl e ↦ rw e (sym ((eq_iff s []).0 e))
    | inr f ↦ rw (f, text_back s) refl
  ]

  int_field_back : (o : Option ℤ) → FitsInt o → and_read (int_field library o) as_int ≡ o
  int_field_back none h = refl
  int_field_back (some n) h = int_back n h

  long_field_back : (o : Option ℤ) → FitsTime o → and_read (int_field library o) as_long ≡ o
  long_field_back none h = refl
  long_field_back (some n) h = long_back n h

  text_option_back : (o : Option Text) → and_read (text_option library o) as_text ≡ o
  text_option_back none = refl
  text_option_back (some s) = text_back s

  -- An item of the repository has the id of its rule.
  pub id-rule_to_json :
      (r : Info)
      → field library (codes "id") (rule_to_json library r) ≡ some (library.from_int r.id)
  id-rule_to_json r = simp (find-seek, seek-cons, seek-nil, seek-optional)

  -- The item of a rule is read as the rule, but for its address and its rate limiter.
  pub json_to_rule-rule_to_json :
      (self : ℕ) (r : Info)
      → IsStorable r
      → json_to_rule library self (rule_to_json library r) ≡ stored_at self r
  unfolding json_to_rule
  json_to_rule-rule_to_json self r fits = simp (
    find-seek,
    seek-cons,
    seek-nil,
    seek-optional,
    later_or-none,
    text_back,
    bool_back,
    int_back r.id fits.id,
    int_back r.priority fits.priority,
    text_of_unless_empty,
    int_field_back r.timeout fits.timeout,
    long_field_back r.cache_duration fits.cache_duration,
    text_option_back,
  )
