-- ===== src/Json/Repository.antt =====
-- JsonRuleRepository of extensions/json/src/json_repository.cpp. A lock makes each operation one step.
-- Whether a file can be written is an argument; the temporary file and the retries are left out.
use fast_rules.Base.{
  ℕ, suc, List, [], ◌∷◌, ◌++◌, Bool, true, false, not, Option, none, some, if◌then◌else◌, ◌==◌,
  length, any, keep, find,
}
use fast_rules.Base.Int.{ℤ, pos, ℤ_eq}
use fast_rules.Base.Text.{Text, Text_eq, codes}
use fast_rules.Rule.{Info, Rules, nil, cons, Rule}
use fast_rules.Versioning.{new_info, with_info}
use fast_rules.Json.{JsonLibrary}
use fast_rules.Json.Load.{or_else, and_read}

module _ (library : JsonLibrary) where
  open library use {
    Value, from_int, from_text, from_bool, from_list, object, same, parse, dump, as_int, as_long,
    as_text, as_bool, as_list,
  }

  -- `data_`, the items of the array, and `dirty_`.
  pub record Repository : Type 0 where
    pub items : List Value
    pub dirty : Bool

  -- What the file holds, if it can be opened.
  unfoldable pub load : Option Text → Repository
  load file = record { items = or_else (and_read (and_read file parse) as_list) []; dirty = false }

  -- The repository and the text that is written, if one is; a failed write throws.
  pub data Flushed : Type 0 where
    nothing_to_write : Flushed
    written : Text → Flushed
    failed : Flushed

  unfoldable pub flush : (can_write : Bool) → Repository → Repository × Flushed
  flush can_write s =
      if s.dirty
      then if can_write
        then (record s { dirty = false }, written (dump (from_list s.items)))
        else (s, failed)
      else (s, nothing_to_write)

  unfoldable pub optional : Text → Option Value → List (Text × Value)
  optional key none = []
  optional key (some v) = (key, v) ∷ []

  abbrev pub unless_empty : Text → Option Value
  unless_empty s = if s == [] then none else some (from_text s)

  abbrev pub int_field : Option ℤ → Option Value
  int_field none = none
  int_field (some n) = some (from_int n)

  abbrev pub text_option : Option Text → Option Value
  text_option none = none
  text_option (some s) = some (from_text s)

  abbrev pub rule_to_json : Info → Value
  rule_to_json r = object (
      (codes "id", from_int r.id)
      ∷ (optional (codes "name") (unless_empty r.name)
          ++ (optional (codes "description") (unless_empty r.description)
              ++ ((codes "expression", from_text r.expression)
                  ∷ (codes "action", from_text r.action)
                  ∷ (codes "isActive", from_bool r.is_active)
                  ∷ (codes "priority", from_int r.priority)
                  ∷ (optional (codes "timeout") (int_field r.timeout)
                      ++ (optional (codes "cacheDuration") (int_field r.cache_duration)
                          ++ (optional (codes "dependsOn") (text_option r.depends_on_rule_name)
                              ++ [])))))))

  abbrev pub field : Text → Value → Option Value
  field key j = library.find key j

  -- The rule of an item, as an object at the address `self`.
  unfoldable pub json_to_rule : ℕ → Value → Info
  json_to_rule self j = record (new_info self) {
    id = or_else (and_read (field (codes "id") j) as_int) (pos 0);
    name = or_else (and_read (field (codes "name") j) as_text) [];
    description = or_else (and_read (field (codes "description") j) as_text) [];
    expression = or_else (and_read (field (codes "expression") j) as_text) [];
    action = or_else (and_read (field (codes "action") j) as_text) [];
    is_active = or_else (and_read (field (codes "isActive") j) as_bool) true;
    priority = or_else (and_read (field (codes "priority") j) as_int) (pos 0);
    timeout = and_read (field (codes "timeout") j) as_int;
    cache_duration = and_read (field (codes "cacheDuration") j) as_long;
    depends_on_rule_name = and_read (field (codes "dependsOn") j) as_text;
  }

  -- `item.contains("id") && item["id"] == id`.
  abbrev pub has_id : Value → Value → Bool
  has_id id item = elim (field (codes "id") item) [ none ↦ false | some v ↦ same v id ]

  unfoldable pub replace : Value → Value → List Value → List Value
  replace id item [] = item ∷ []
  replace id item (existing ∷ items) =
      if has_id id existing then item ∷ items else existing ∷ replace id item items

  unfoldable pub upsert : Value → List Value → List Value
  unfolding replace
  upsert item items = elim (field (codes "id") item) [
    | none ↦ items ++ item ∷ []
    | some id ↦ replace id item items
  ]

  unfoldable pub upsert_rules : Rules → List Value → List Value
  unfolding upsert
  upsert_rules nil items = items
  upsert_rules (cons info kids rest) items = upsert_rules rest (upsert (rule_to_json info) items)

  unfoldable pub save : Rule → Repository → Repository
  unfolding upsert_rules
  save r s = record {
    items = upsert_rules r.child_rules (upsert (rule_to_json r.info) s.items);
    dirty = true;
  }

  abbrev pub as_rule : ℕ → Option Value → Option Rule
  as_rule self none = none
  as_rule self (some j) = some (with_info (json_to_rule self j))

  unfoldable pub find_by_id : ℕ → ℤ → Repository → Option Rule
  unfolding json_to_rule
  find_by_id self id s = as_rule self (find (has_id (from_int id)) s.items)

  -- The rules stand at the addresses from `self` on.
  unfoldable pub find_all : ℕ → List Value → List Rule
  unfolding json_to_rule
  find_all self [] = []
  find_all self (j ∷ items) = with_info (json_to_rule self j) ∷ find_all (suc self) items

  unfoldable pub remove : ℤ → Repository → Repository
  remove id s =
      if any (has_id (from_int id)) s.items
      then record { items = keep (λ j. not (has_id (from_int id) j)) s.items; dirty = true }
      else s

  unfoldable pub exists : ℤ → Repository → Bool
  exists id s = any (has_id (from_int id)) s.items

  unfoldable pub count : Repository → ℕ
  count s = length s.items
