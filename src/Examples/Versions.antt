-- ===== src/Examples/Versions.antt =====
-- Snapshots of a rule and a rollback.
use fast_rules.Base.{arith, ℕ, ◌≡◌, refl, [], ◌∷◌, Option, none, some, true}
use fast_rules.Base.Int.{pos}
use fast_rules.Base.Text.{Text, codes, to_string}
use fast_rules.Execution.World.{done}
use fast_rules.Rule.{Info}
use fast_rules.Versioning.{
  RuleVersion, RuleVersionHistory, RuleVersionManager, with_info, new_info, get_version,
  get_version_at, get_history, history_of, rollback_to, generate_version_id, next_count,
  snapshot_rule, snapshot_rules,
}
use fast_rules.Versioning.Chain.{IsConsistent, snapshot_rules-IsConsistent}
use fast_rules.Versioning.Rollback.{restored, rollback_to-snapshot_rule}

abbrev put_time : ℕ → Text
put_time n = codes "20260101-000000"

abbrev new_manager : RuleVersionManager
new_manager = record { histories = []; counter = 0 }

abbrev limit : Info
limit = record (new_info 3) { id = pos 7; name = codes "limit"; expression = codes "x > 1" }

abbrev versions_of_limit : Text
versions_of_limit = generate_version_id put_time 5 (next_count 0)

first_id : versions_of_limit ≡ codes "20260101-000000-1"
unfolding generate_version_id
first_id = refl

unused : get_version versions_of_limit (history_of (to_string (pos 7)) []) ≡ none
unfolding get_version fast_rules.Base.Dict.lookup
unused = refl

rollback_to-snapshot_rule_example :
    (h : RuleVersionHistory) × (get_history
          (pos 7)
          (snapshot_rule put_time 5 6 [] [] limit new_manager)
        ≡ some h
      × rollback_to 9 versions_of_limit h ≡ done (with_info (restored 9 limit)))
rollback_to-snapshot_rule_example =
    rollback_to-snapshot_rule put_time 5 6 9 [] [] limit new_manager (omega arith) unused

abbrev version : ℕ → RuleVersion
version n = record {
  version_id = n ∷ [];
  rule_name = codes "7";
  expression = [];
  action = [];
  priority = pos 0;
  is_active = true;
  created_at = n;
  author = [];
  change_summary = [];
  parent_version_id = [];
}

abbrev three : RuleVersionHistory
three = record { rule_name = codes "7"; versions = version 1 ∷ version 4 ∷ version 8 ∷ [] }

at_six : get_version_at 6 three ≡ some (version 4)
unfolding get_version_at
at_six = refl

abbrev clock : ℕ → ℕ × ℕ
clock k = (k, k)

snapshot_rules-IsConsistent_example :
    IsConsistent
      (snapshot_rules put_time clock 0 [] [] (some limit ∷ none ∷ some limit ∷ []) new_manager)
snapshot_rules-IsConsistent_example =
    snapshot_rules-IsConsistent put_time clock 0 [] [] (some limit ∷ none ∷ some limit ∷ [])
      new_manager tt
