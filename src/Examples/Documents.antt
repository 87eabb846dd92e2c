-- ===== src/Examples/Documents.antt =====
-- A JSON library, a workflow that is written and read back, and a repository.
use fast_rules.Base.{
  ℕ, ◌≡◌, refl, List, [], ◌∷◌, ◌==◌, Bool, true, false, Option, none, some, arith,
}
use fast_rules.Base.Int.{ℤ, pos, ℤ_eq}
use fast_rules.Base.Text.{Text, Text_eq, codes}
use fast_rules.Rule.{Info, nil, cons, Rule}
use fast_rules.Versioning.{new_info, with_info}
use fast_rules.Workflow.Shape.{Workflow}
use fast_rules.Json.{JsonLibrary, assigned}
use fast_rules.Json.Load.{Store, ok, parse_workflow}
use fast_rules.Json.Durations.{milliseconds, read_duration}
use fast_rules.Json.Save.{from_rules, serialize_workflow}
use fast_rules.Json.Trees.{IsCopy, AllFit}
use fast_rules.Json.Repository.{find_by_id, save, remove, flush, load, optional}
use fast_rules.Json.Stored.{IsStorable}
use fast_rules.Json.Map.{Call, call_save, call_remove, call_flush, effect, stored}
use fast_rules.Json.Lookup.{run, find_by_id-run}
use fast_rules.Json.RoundTrip.{parse_workflow-serialize_workflow}

mutual
  data JsonValue : Type 0 where
    null : JsonValue
    number : ℤ → JsonValue
    text : Text → JsonValue
    flag : Bool → JsonValue
    list : Items → JsonValue
    fields : Fields → JsonValue

  data Items : Type 0 where
    no_items : Items
    item : JsonValue → Items → Items

  data Fields : Type 0 where
    no_fields : Fields
    field : Text → JsonValue → Fields → Fields

abbrev to_items : List JsonValue → Items
to_items [] = no_items
to_items (v ∷ vs) = item v (to_items vs)

abbrev from_items : Items → List JsonValue
from_items no_items = []
from_items (item v vs) = v ∷ from_items vs

abbrev to_fields : List (Text × JsonValue) → Fields
to_fields [] = no_fields
to_fields ((k, v) ∷ fs) = field k v (to_fields fs)

abbrev from_fields : Fields → List (Text × JsonValue)
from_fields no_fields = []
from_fields (field k v fs) = (k, v) ∷ from_fields fs

items_back : (vs : List JsonValue) → some (from_items (to_items vs)) ≡ some vs
items_back [] = refl
items_back (v ∷ vs) = cc (items_back vs)

fields_back : (fs : List (Text × JsonValue)) → from_fields (to_fields fs) ≡ fs
fields_back [] = refl
fields_back ((k, v) ∷ fs) = cc (fields_back fs)

abbrev find_in : Text → JsonValue → Option JsonValue
find_in key (fields fs) = assigned key (from_fields fs)
find_in key _ = none

abbrev number_in : JsonValue → Option ℤ
number_in (number n) = some n
number_in _ = none

abbrev text_in : JsonValue → Option Text
text_in (text s) = some s
text_in _ = none

abbrev flag_in : JsonValue → Option Bool
flag_in (flag b) = some b
flag_in _ = none

abbrev list_in : JsonValue → Option (List JsonValue)
list_in (list vs) = some (from_items vs)
list_in _ = none

abbrev same_numbers : Option ℤ → Option ℤ → Bool
same_numbers none o = false
same_numbers (some m) none = false
same_numbers (some m) (some n) = m == n

abbrev null_value : JsonValue → Bool
null_value null = true
null_value _ = false

found_in_object :
    (key : Text) (fs : List (Text × JsonValue))
    → find_in key (fields (to_fields fs)) ≡ assigned key fs
found_in_object key fs = rw (fields_back fs)

abbrev plain_json : JsonLibrary
plain_json = record {
  Value = JsonValue;
  null = null;
  from_int = number;
  from_text = text;
  from_bool = flag;
  from_list = λ vs. list (to_items vs);
  object = λ fs. fields (to_fields fs);
  find = find_in;
  is_null = null_value;
  as_int = number_in;
  as_long = number_in;
  as_number = number_in;
  as_text = text_in;
  as_bool = flag_in;
  as_list = list_in;
  same = λ v w. same_numbers (number_in v) (number_in w);
  parse = λ s. none;
  dump = λ v. [];
  find_object = found_in_object;
  null_back = refl;
  int_back = λ n h. refl;
  long_back = λ n h. refl;
  number_back = λ n h. refl;
  number_set = λ n. refl;
  text_back = λ s. refl;
  text_null = refl;
  bool_back = λ b. refl;
  list_back = items_back;
  same_ints = λ m n. refl;
}

abbrev numbered : ℕ → Text → Info
numbered id name = record (new_info id) { id = pos id; name = name; timeout = some (pos 50) }

-- A rule with a child, and a rule that depends on it by its name.
abbrev documented : Workflow
documented = record {
  id = pos 7;
  name = codes "w";
  description = [];
  is_active = true;
  rules =
      record { info = numbered 1 (codes "a"); child_rules = cons (numbered 2 (codes "b")) nil nil }
      ∷ record {
        info = record (numbered 3 []) { depends_on_rule_name = some (codes "a") };
        child_rules = nil;
      }
      ∷ [];
}

abbrev first_store : Store
first_store = record { rule_ids = pos 0; workflow_ids = pos 0; addresses = 10 }

two_minutes : read_duration (codes "2m") ≡ milliseconds (pos 120000)
unfolding read_duration
two_minutes = refl

documented-AllFit : AllFit (from_rules documented.rules)
documented-AllFit = (
  record { id = omega arith; priority = omega arith; timeout = omega arith; cache_duration = tt },
  (
    record { id = omega arith; priority = omega arith; timeout = omega arith; cache_duration = tt },
    tt,
    tt,
  ),
  (
    record { id = omega arith; priority = omega arith; timeout = omega arith; cache_duration = tt },
    tt,
    tt,
  ),
)

parse_workflow-serialize_workflow_example :
    (v : JsonValue) × (rules : List Rule) × (s' : Store) × (serialize_workflow plain_json documented
      ≡ ok v)
    × (parse_workflow plain_json v first_store ≡ (ok (record documented { rules = rules }), s'))
    × IsCopy (from_rules documented.rules) (from_rules rules)
parse_workflow-serialize_workflow_example =
    parse_workflow-serialize_workflow plain_json documented first_store (omega arith)
      documented-AllFit (omega arith)

first-IsStorable : (name : Text) → IsStorable (numbered 1 name)
first-IsStorable name = record {
  id = omega arith;
  priority = omega arith;
  timeout = omega arith;
  cache_duration = tt;
}

second-IsStorable : (name : Text) → IsStorable (numbered 2 name)
second-IsStorable name = record {
  id = omega arith;
  priority = omega arith;
  timeout = omega arith;
  cache_duration = tt;
}

-- A rule with a child is saved, then another one with its id, and the child is removed.
abbrev calls : List Call
calls =
    call_save (record {
      info = numbered 1 (codes "a");
      child_rules = cons (numbered 2 (codes "b")) nil nil;
    })
    ∷ call_flush false
    ∷ call_save (with_info (numbered 1 (codes "c")))
    ∷ call_remove (pos 2)
    ∷ []

removed : find_by_id plain_json 5 (pos 2) (run plain_json calls (load plain_json none)) ≡ none
unfolding find_by_id save remove flush load optional
removed = refl

find_by_id-run_example :
    find_by_id plain_json 5 (pos 1) (run plain_json calls (load plain_json none))
    ≡ stored 5 (effect calls (λ _. none) (pos 1))
find_by_id-run_example = find_by_id-run plain_json calls 5 (pos 1) (
  (first-IsStorable (codes "a"), (second-IsStorable (codes "b"), tt)),
  ((first-IsStorable (codes "c"), tt), tt),
)
