-- ===== src/Json/Load.antt =====
-- JsonLoader::parseRule and JsonLoader::loadWorkflow. `parentRule` and a null child are left out. A
-- loaded object stands at a new address.
use fast_rules.Base.{
  ℕ, zero, suc, ◌+◌, List, [], ◌∷◌, ◌++◌, true, false, Option, none, some, if◌then◌else◌, ◌==◌,
}
use fast_rules.Base.Int.{ℤ, pos, negsuc, inc, ℤ_eq}
use fast_rules.Base.Text.{Text, Text_eq, codes}
use fast_rules.Base.Parse.{stoi}
use fast_rules.Rule.{Info, Rules, nil, cons, Rule}
use fast_rules.Versioning.{new_info}
use fast_rules.Workflow.Shape.{Workflow}
use fast_rules.Json.{JsonLibrary}
use fast_rules.Json.Durations.{Duration, unknown_unit, not_a_number, milliseconds, read_duration}

-- `rule` is a RuleException with its message, `number` an exception of std::stoll, `syntax` one of the
-- JSON parser.
pub data Raised : Type 0 where
  rule : Text → Raised
  number : Raised
  syntax : Raised

pub data Result {ℓ} (A : Type ℓ) : Type ℓ where
  ok : A → Result A
  raise : Raised → Result A

-- The counters for missing ids, and the address of the next object.
pub record Store : Type 0 where
  pub rule_ids : ℤ
  pub workflow_ids : ℤ
  pub addresses : ℕ

abbrev pub Load : Type 0 → Type 0
Load A = Store → Result A × Store

module _ {A : Type 0} where
  abbrev pub pure : A → Load A
  pure a s = (ok a, s)

  abbrev pub lift : Result A → Load A
  lift r s = (r, s)

abbrev pub go_on : {A B : Type 0} → (A → Load B) → Result A × Store → Result B × Store
go_on f (ok a, s) = f a s
go_on f (raise e, s) = (raise e, s)

infixl 5 ◌>>=◌
abbrev pub ◌>>=◌ : {A B : Type 0} → Load A → (A → Load B) → Load B
◌>>=◌ m f s = go_on f (m s)

-- `++counter` of a 32-bit counter.
abbrev count_up : ℤ → ℤ
count_up n = if n == pos 2147483647 then negsuc 2147483647 else inc n

unfoldable pub next_rule_id : Load ℤ
next_rule_id s = let id = count_up s.rule_ids in (ok id, record s { rule_ids = id })

unfoldable pub next_workflow_id : Load ℤ
next_workflow_id s = let id = count_up s.workflow_ids in (ok id, record s { workflow_ids = id })

unfoldable pub next_address : Load ℕ
next_address s = (ok s.addresses, record s { addresses = s.addresses + 1 })

abbrev pub or_else {ℓ} : {A : Type ℓ} → Option A → A → A
or_else none a = a
or_else (some b) a = b

abbrev pub and_read {ℓ κ} : {A : Type ℓ} {B : Type κ} → Option A → (A → Option B) → Option B
and_read none f = none
and_read (some a) f = f a

abbrev id_of_text : Text → Text → Option ℤ → Result ℤ
id_of_text what s none =
    raise (rule (what ++ (codes " 'id' is a string but not a valid integer: " ++ s)))
id_of_text what s (some n) = ok n

abbrev duration_of : Duration → Result (Option ℤ)
duration_of unknown_unit = ok none
duration_of not_a_number = raise number
duration_of (milliseconds n) = ok (some n)

abbrev pub to_list : Rules → List Rule
to_list nil = []
to_list (cons info kids rest) = record { info = info; child_rules = kids } ∷ to_list rest

module _ (library : JsonLibrary) where
  open library use {Value, find, is_null, as_int, as_number, as_text, as_bool, as_list, parse}

  -- The id in a value, or a new one.
  unfoldable pub read_id : Text → Load ℤ → Option Value → Load ℤ
  unfolding stoi
  read_id what fresh none = fresh
  read_id what fresh (some v) = elim (as_int v) [
    | some n ↦ pure n
    | none ↦ elim (as_text v) [ some s ↦ lift (id_of_text what s (stoi s)) | none ↦ fresh ]
  ]

  unfoldable pub read_time : Option Value → Result (Option ℤ)
  unfolding read_duration
  read_time none = ok none
  read_time (some v) = elim (is_null v) [
    | true ↦ ok none
    | false ↦ elim (as_number v) [
      | some n ↦ ok (some n)
      | none ↦ elim (as_text v) [ some s ↦ duration_of (read_duration s) | none ↦ ok none ]
    ]
  ]

  abbrev pub text_field : Text → Value → Option Text
  text_field key j = and_read (find key j) as_text

  unfoldable pub parse_info : Value → Load Info
  unfolding read_id read_time next_address next_rule_id
  parse_info j = do
    self ← next_address
    id ← read_id (codes "Rule") next_rule_id (find (codes "id") j)
    timeout ← lift (read_time (find (codes "timeout") j))
    cache_duration ← lift (read_time (find (codes "cacheDuration") j))
    pure (record (new_info self) {
      id = id;
      name = or_else (text_field (codes "name") j) [];
      description = or_else (text_field (codes "description") j) [];
      is_active = or_else (and_read (find (codes "isActive") j) as_bool) true;
      priority = or_else (and_read (find (codes "priority") j) as_int) (pos 0);
      expression = or_else (text_field (codes "expression") j) [];
      action = or_else (text_field (codes "action") j) [];
      depends_on_rule_name = text_field (codes "dependsOnRuleName") j;
      timeout = timeout;
      cache_duration = cache_duration;
    })

  -- The loop over the rules of a list.
  unfoldable pub parse_rules : (Value → Load Rule) → List Value → Load Rules
  parse_rules parse_rule [] = pure nil
  parse_rules parse_rule (v ∷ vs) = do
    r ← parse_rule v
    rest ← parse_rules parse_rule vs
    pure (cons r.info r.child_rules rest)

  -- `levels` is how deep rules may still be nested, this rule included.
  unfoldable pub parse_rule_at : (levels : ℕ) → Value → Load Rule
  unfolding parse_info parse_rules
  parse_rule_at zero j =
      lift (raise (rule (codes "Rule nesting exceeds the maximum supported depth of 64")))
  parse_rule_at (suc levels) j = do
    info ← parse_info j
    kids ←
        parse_rules (parse_rule_at levels)
          (or_else (and_read (find (codes "childRules") j) as_list) [])
    pure (record { info = info; child_rules = kids })

  abbrev pub workflow_of : Value → ℤ → Rules → Workflow
  workflow_of j id rules = record {
    id = id;
    name = or_else (text_field (codes "name") j) [];
    description = or_else (text_field (codes "description") j) [];
    is_active = or_else (and_read (find (codes "isActive") j) as_bool) true;
    rules = to_list rules;
  }

  unfoldable pub parse_workflow : Value → Load Workflow
  unfolding read_id next_workflow_id parse_rules parse_rule_at
  parse_workflow j = do
    id ← read_id (codes "Workflow") next_workflow_id (find (codes "id") j)
    rules ← parse_rules (parse_rule_at 65) (or_else (and_read (find (codes "rules") j) as_list) [])
    pure (workflow_of j id rules)

  unfoldable pub load_rule : Text → Load Rule
  unfolding parse_rule_at
  load_rule s = elim (parse s) [ none ↦ lift (raise syntax) | some j ↦ parse_rule_at 65 j ]

  unfoldable pub load_workflow : Text → Load Workflow
  unfolding parse_workflow
  load_workflow s = elim (parse s) [ none ↦ lift (raise syntax) | some j ↦ parse_workflow j ]
