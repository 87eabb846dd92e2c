-- ===== src/Json/Saved.antt =====
-- What the JSON object of a rule keeps of it.
use fast_rules.Base.{ℕ, ◌+◌, ◌≡◌, refl, List, [], Option, none, some}
use fast_rules.Base.Int.{ℤ}
use fast_rules.Base.Text.{Text, codes}
use fast_rules.Base.Parse.{IsInt}
use fast_rules.Rule.{Info}
use fast_rules.Json.{JsonLibrary, IsLong}
use fast_rules.Json.Load.{
  ok, Store, Load, read_id, read_time, next_address, next_rule_id, parse_info,
}
use fast_rules.Json.Save.{rule_value, text_or_null, int_or_null}

abbrev pub FitsTime : Option ℤ → Type 0
FitsTime none = Unit
FitsTime (some n) = IsLong n

-- The numbers of a rule are those of its C++ types.
pub record Fits (r : Info) : Type 0 where
  pub id : IsInt r.id
  pub priority : IsInt r.priority
  pub timeout : FitsTime r.timeout
  pub cache_duration : FitsTime r.cache_duration

-- A rule as its JSON object has it: without its name and its rate limiter, and at an address.
abbrev pub saved_at : ℕ → Info → Info
saved_at self r = record r { self = self; name = []; rate_limiter = none }

module _ (library : JsonLibrary) where
  open library use {
    Value, find, as_int, as_text, as_bool, find_object, int_back, number_back, number_set,
    text_back, text_null, null_back, bool_back,
  }

  pub id_back :
      (what : Text) (fresh : Load ℤ) (n : ℤ) (v : Option Value) (s : Store)
      → IsInt n
      → v ≡ some (library.from_int n)
      → read_id library what fresh v s ≡ (ok n, s)
  unfolding read_id
  id_back what fresh n v s h e = rw (e, read_id, int_back n h) refl

  time_back :
      (o : Option ℤ) (v : Option Value)
      → FitsTime o
      → v ≡ some (int_or_null library o)
      → read_time library v ≡ ok o
  unfolding read_time
  time_back none v h e = rw (e, read_time, null_back) refl
  time_back (some n) v h e = rw (e, read_time, number_set n, number_back n h) refl

  text_or_null_back : (o : Option Text) → as_text (text_or_null library o) ≡ o
  text_or_null_back none = text_null
  text_or_null_back (some s) = text_back s

  -- What the object of a rule is read as.
  pub parse_info-rule_value :
      (r : Info) (children : List Value) (s : Store)
      → Fits r
      → parse_info library (rule_value library r children) s
        ≡ (ok (saved_at s.addresses r), record s { addresses = s.addresses + 1 })
  unfolding parse_info next_address
  parse_info-rule_value r children s fits = simp (
    find_object,
    text_back,
    bool_back,
    text_or_null_back,
    int_back r.priority fits.priority,
    id_back (codes "Rule") next_rule_id r.id (some (library.from_int r.id))
        (record s { addresses = s.addresses + 1 }) fits.id refl,
    time_back r.timeout (some (int_or_null library r.timeout)) fits.timeout refl,
    time_back r.cache_duration (some (int_or_null library r.cache_duration)) fits.cache_duration
        refl,
  )
