-- ===== src/Json/Map.antt =====
-- The abstract view of a JSON repository: a map from ids to rules.
use fast_rules.Base.{ℕ, List, [], ◌∷◌, Bool, Option, none, some, if◌then◌else◌, ◌==◌}
use fast_rules.Base.Int.{ℤ, ℤ_eq}
use fast_rules.Rule.{Info, Rules, nil, cons, Rule}
use fast_rules.Versioning.{with_info}
use fast_rules.Json.Stored.{IsStorable, stored_at}

-- The rules that a map holds.
abbrev pub RuleMap : Type 0
RuleMap = ℤ → Option Info

abbrev pub put : Info → RuleMap → RuleMap
put r m k = if r.id == k then some r else m k

-- A rule and its children are put one after the other; deeper rules are not stored.
abbrev pub put_rules : Rules → RuleMap → RuleMap
put_rules nil m = m
put_rules (cons info kids rest) m = put_rules rest (put info m)

abbrev pub put_rule : Rule → RuleMap → RuleMap
put_rule r m = put_rules r.child_rules (put r.info m)

abbrev pub drop_id : ℤ → RuleMap → RuleMap
drop_id id m k = if id == k then none else m k

abbrev pub AllStorable : Rules → Type 0
AllStorable nil = Unit {0}
AllStorable (cons info kids rest) = IsStorable info × AllStorable rest

-- The calls that change a repository; `flush` may find a file that it can write.
pub data Call : Type 0 where
  call_save : Rule → Call
  call_remove : ℤ → Call
  call_flush : Bool → Call

-- What the calls do to a map.
abbrev pub effect : List Call → RuleMap → RuleMap
effect [] m = m
effect (call_save r ∷ calls) m = effect calls (put_rule r m)
effect (call_remove id ∷ calls) m = effect calls (drop_id id m)
effect (call_flush b ∷ calls) m = effect calls m

abbrev pub CanStore : List Call → Type 0
CanStore [] = Unit {0}
CanStore (call_save r ∷ calls) = (IsStorable r.info × AllStorable r.child_rules) × CanStore calls
CanStore (call_remove id ∷ calls) = CanStore calls
CanStore (call_flush b ∷ calls) = CanStore calls

abbrev pub stored : ℕ → Option Info → Option Rule
stored self none = none
stored self (some r) = some (with_info (stored_at self r))
