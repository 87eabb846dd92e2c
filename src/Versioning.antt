-- ===== src/Versioning.antt =====
-- src/rule_versioning.cpp: the version history of a rule, rolling back to a version, and the manager
-- of the histories. Times are readings of the system clock. `std::put_time`, which writes a time into
-- the id of a version, is a parameter; so are the addresses of the objects that a rollback makes.
pub mod Chain
pub mod Rollback
use fast_rules.Base.{
  ℕ, zero, suc, ◌+◌, ◌/◌, ◌%◌, List, [], ◌∷◌, ◌++◌, Bool, true, false, not, ◌&&◌, Option, none,
  some, if◌then◌else◌, ◌==◌, ltb, leb, length, ℕ_eq, map, reverse,
}
use fast_rules.Base.Int.{ℤ, pos, ℤ_eq}
use fast_rules.Base.Dict.{Dict, lookup, insert}
use fast_rules.Base.Text.{Text, Text_eq, codes, to_string}
use fast_rules.Base.Parse.{stoi}
use fast_rules.Execution.World.{Outcome, done, raise, rule}
use fast_rules.Rule.{Info, Rules, nil, Rule}

pub record RuleVersion : Type 0 where
  pub version_id : Text
  pub rule_name : Text
  pub expression : Text
  pub action : Text
  pub priority : ℤ
  pub is_active : Bool
  pub created_at : ℕ
  pub author : Text
  pub change_summary : Text
  pub parent_version_id : Text

-- `ruleId` is left out: no code writes it.
pub record RuleVersionHistory : Type 0 where
  pub rule_name : Text
  pub versions : List RuleVersion

abbrev pub new_history : RuleVersionHistory
new_history = record { rule_name = []; versions = [] }

unfoldable pub add_version : RuleVersion → RuleVersionHistory → RuleVersionHistory
add_version v h = record h { versions = h.versions ++ v ∷ [] }

abbrev pub last_version : List RuleVersion → Option RuleVersion
last_version [] = none
last_version (v ∷ []) = some v
last_version (v ∷ w ∷ vs) = last_version (w ∷ vs)

unfoldable pub get_latest : RuleVersionHistory → Option RuleVersion
get_latest h = last_version h.versions

abbrev pub find_version : Text → List RuleVersion → Option RuleVersion
find_version id [] = none
find_version id (v ∷ vs) = if v.version_id == id then some v else find_version id vs

unfoldable pub get_version : Text → RuleVersionHistory → Option RuleVersion
get_version id h = find_version id h.versions

-- `!best || v.createdAt > best->createdAt`.
abbrev pub is_newer : RuleVersion → Option RuleVersion → Bool
is_newer v none = true
is_newer v (some best) = ltb best.created_at v.created_at

abbrev pub best_at : ℕ → Option RuleVersion → List RuleVersion → Option RuleVersion
best_at timestamp best [] = best
best_at timestamp best (v ∷ vs) =
    best_at timestamp (if leb v.created_at timestamp && is_newer v best then some v else best) vs

unfoldable pub get_version_at : ℕ → RuleVersionHistory → Option RuleVersion
get_version_at timestamp h = best_at timestamp none h.versions

unfoldable pub list_versions : RuleVersionHistory → List RuleVersion
list_versions h = reverse h.versions

-- The fields of `Rule rule;`, an object at the address `self`.
abbrev pub new_info : ℕ → Info
new_info self = record {
  self = self;
  id = pos 0;
  name = [];
  description = [];
  expression = [];
  action = [];
  priority = pos 0;
  is_active = true;
  timeout = none;
  cache_duration = none;
  depends_on_rule_name = none;
  rate_limiter = none;
}

abbrev pub with_info : Info → Rule
with_info i = record { info = i; child_rules = nil }

unfoldable pub restore : ℕ → Text → RuleVersion → Outcome Rule
unfolding stoi
restore self version_id v = elim (stoi v.rule_name) [
  | none ↦ raise (
      rule (
        codes "Version '"
        ++ version_id
        ++ codes "' has a non-numeric ruleName '"
        ++ v.rule_name
        ++ codes "'; cannot reconstruct a rule id"))
  | some id ↦ done (
      with_info (record (new_info self) {
        id = id;
        expression = v.expression;
        action = v.action;
        priority = v.priority;
        is_active = v.is_active;
      }))
]

unfoldable pub rollback_to : ℕ → Text → RuleVersionHistory → Outcome Rule
unfolding restore get_version
rollback_to self version_id h = elim (get_version version_id h) [
  | none ↦ raise (rule (codes "Version not found: " ++ version_id))
  | some v ↦ restore self version_id v
]

abbrev shown_active : Bool → Text
shown_active true = codes "true"
shown_active false = codes "false"

abbrev changed_if : Bool → Text → List Text
changed_if b message = if b then message ∷ [] else []

unfoldable pub differences : RuleVersion → RuleVersion → List Text
differences v w =
    changed_if (not (v.expression == w.expression)) (codes "Expression changed")
    ++ changed_if (not (v.action == w.action)) (codes "Action changed")
    ++ changed_if (not (v.priority == w.priority))
        (codes "Priority changed: " ++ to_string v.priority ++ codes " -> " ++ to_string w.priority)
    ++ changed_if (not_same v.is_active w.is_active) (
        codes "Active state changed: "
        ++ shown_active v.is_active
        ++ codes " -> "
        ++ shown_active w.is_active)
  where
    not_same : Bool → Bool → Bool
    not_same true b = not b
    not_same false b = b

unfoldable pub diff : Text → Text → RuleVersionHistory → List Text
unfolding differences get_version
diff from_id to_id h = elim (get_version from_id h) [
  | none ↦ (codes "Source version '" ++ from_id ++ codes "' not found") ∷ []
  | some v ↦ elim (get_version to_id h) [
    | none ↦ (codes "Target version '" ++ to_id ++ codes "' not found") ∷ []
    | some w ↦ differences v w
  ]
]

-- `autoSnapshot_` is left out: no code reads it but its accessor.
pub record RuleVersionManager : Type 0 where
  pub histories : Dict Text RuleVersionHistory
  pub counter : ℕ

-- The hexadecimal digits of `n` before `acc`.
unfoldable pub hex_digits : ℕ → ℕ → Text → Text
hex_digits zero n acc = acc
hex_digits (suc fuel) n acc =
    let d = n % 16 in
    let longer = (if ltb d 10 then d + 48 else d + 87) ∷ acc in
    let all_digits = hex_digits fuel (n / 16) longer in if ltb n 16 then longer else all_digits

-- `time ++ "-" ++ hex`, with the count after it was increased; it is a 32-bit integer, shared by all
-- managers of the process.
unfoldable pub generate_version_id : (ℕ → Text) → ℕ → ℕ → Text
unfolding hex_digits
generate_version_id put_time now counter = put_time now ++ b'-' ∷ hex_digits 8 counter []

abbrev pub next_count : ℕ → ℕ
next_count n = (n + 1) % 4294967296

abbrev pub id_of : Option RuleVersion → Text
id_of none = []
id_of (some v) = v.version_id

abbrev pub or_new : Option RuleVersionHistory → RuleVersionHistory
or_new none = new_history
or_new (some h) = h

-- `histories_[key]`.
abbrev pub history_of : Text → Dict Text RuleVersionHistory → RuleVersionHistory
history_of key d = or_new (lookup key d)

module _ (put_time : ℕ → Text) where
  unfoldable pub new_version : ℕ → ℕ → Text → Text → ℕ → RuleVersionHistory → Info → RuleVersion
  unfolding generate_version_id get_latest
  new_version id_time now author summary counter h r = record {
    version_id = generate_version_id put_time id_time counter;
    rule_name = to_string r.id;
    expression = r.expression;
    action = r.action;
    priority = r.priority;
    is_active = r.is_active;
    created_at = now;
    author = author;
    change_summary = summary;
    parent_version_id = id_of (get_latest h);
  }

  -- `id_time` and `now` are the two readings of the clock.
  unfoldable pub snapshot_rule :
      ℕ → ℕ → Text → Text → Info → RuleVersionManager → RuleVersionManager
  unfolding new_version add_version to_string insert
  snapshot_rule id_time now author summary r m =
      let key = to_string r.id in
      let h = history_of key m.histories in
      let count = next_count m.counter in
      record {
        histories =
            insert key
              (add_version (new_version id_time now author summary count h r)
                (record h { rule_name = key }))
              m.histories;
        counter = count;
      }

  -- `clock k` are the readings at the k-th rule; a null pointer in `rules` is passed over.
  unfoldable pub snapshot_rules :
      (ℕ → ℕ × ℕ) → ℕ → Text → Text → List (Option Info) → RuleVersionManager → RuleVersionManager
  unfolding snapshot_rule
  snapshot_rules clock k author summary [] m = m
  snapshot_rules clock k author summary (none ∷ rs) m =
      snapshot_rules clock (suc k) author summary rs m
  snapshot_rules clock k author summary (some r ∷ rs) m =
      snapshot_rules clock (suc k) author summary rs
        (snapshot_rule (clock k).0 (clock k).1 author summary r m)

unfoldable pub get_history : ℤ → RuleVersionManager → Option RuleVersionHistory
unfolding lookup to_string
get_history id m = lookup (to_string id) m.histories

-- The rules of the histories that hold the version; `address` is where the rule of a history is put.
unfoldable pub rollback_rules : (Text → ℕ) → Text → Dict Text RuleVersionHistory → List Rule
unfolding rollback_to
rollback_rules address version_id [] = []
rollback_rules address version_id ((key, h) ∷ hs) =
    let rest = rollback_rules address version_id hs in
    elim (rollback_to (address key) version_id h) [ done r ↦ r ∷ rest | raise _ ↦ rest ]

-- The id and the rules of the new workflow.
unfoldable pub rollback_workflow : (Text → ℕ) → ℤ → Text → RuleVersionManager → ℤ × List Rule
unfolding rollback_rules
rollback_workflow address workflow_id version_id m =
    (workflow_id, rollback_rules address version_id m.histories)

unfoldable pub get_tracked_rule_ids : RuleVersionManager → List Text
get_tracked_rule_ids m = map (λ e. e.0) m.histories
