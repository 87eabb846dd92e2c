-- ===== src/Versioning/Chain.antt =====
-- What holds of the histories that snapshots build.
use fast_rules.Base.{
  ℕ, suc, ◌≡◌, refl, sym, ◌∙◌, All-append, List, [], ◌∷◌, ◌++◌, Option, none, some, inl, inr, All,
  Option-cases,
}
use fast_rules.Base.Dict.{Dict, lookup, All-insert, All-lookup}
use fast_rules.Base.Text.{Text, Text_eq, to_string}
use fast_rules.Rule.{Info}
use fast_rules.Versioning.{
  RuleVersion, RuleVersionHistory, RuleVersionManager, last_version, get_latest, id_of, history_of,
  new_version, add_version, snapshot_rule, snapshot_rules,
}

-- Each version names the one before it as its parent; `parent` is that of the first.
abbrev pub IsChained : Text → List RuleVersion → Type 0
IsChained parent [] = Unit
IsChained parent (v ∷ vs) = v.parent_version_id ≡ parent × IsChained v.version_id vs

-- A history under a key is of the rule with that key, and its versions are chained from no parent.
abbrev pub IsTracked : Text × RuleVersionHistory → Type 0
IsTracked (key, h) = All (λ v. v.rule_name ≡ key) h.versions × IsChained [] h.versions

abbrev pub IsConsistent : RuleVersionManager → Type 0
IsConsistent m = All IsTracked m.histories

last_or : Text → List RuleVersion → Text
last_or parent [] = parent
last_or parent (v ∷ vs) = last_or v.version_id vs

last_or-last_version :
    (v : RuleVersion) (vs : List RuleVersion)
    → last_or v.version_id vs ≡ id_of (last_version (v ∷ vs))
unfolding last_or
last_or-last_version v [] = refl
last_or-last_version v (w ∷ vs) = last_or-last_version w vs

last_or-latest : (vs : List RuleVersion) → last_or [] vs ≡ id_of (last_version vs)
unfolding last_or
last_or-latest [] = refl
last_or-latest (v ∷ vs) = last_or-last_version v vs

IsChained-append :
    (parent : Text) (vs : List RuleVersion) (v : RuleVersion)
    → IsChained parent vs
    → v.parent_version_id ≡ last_or parent vs
    → IsChained parent (vs ++ v ∷ [])
unfolding last_or
IsChained-append parent [] v h e = (e, tt)
IsChained-append parent (w ∷ vs) v h e = (h.0, IsChained-append w.version_id vs v h.1 e)

history_of-IsTracked :
    (key : Text) (d : Dict Text RuleVersionHistory)
    → All IsTracked d
    → IsTracked (key, history_of key d)
history_of-IsTracked key d h = elim (Option-cases (lookup key d)) [
  | inl e ↦ rw e (tt, tt)
  | inr (k, e) ↦ rw e (All-lookup IsTracked key k d h e)
]

add_version-IsTracked :
    (key : Text) (h : RuleVersionHistory) (v : RuleVersion)
    → v.rule_name ≡ key
    → v.parent_version_id ≡ id_of (get_latest h)
    → IsTracked (key, h)
    → IsTracked (key, add_version v (record h { rule_name = key }))
unfolding add_version get_latest
add_version-IsTracked key h v e p t = (
  All-append _ h.versions v t.0 e,
  IsChained-append [] h.versions v t.1 (p ∙ sym (last_or-latest h.versions)),
)

module _ (put_time : ℕ → Text) where
  snapshot_rule-IsConsistent :
      (id_time now : ℕ) (author summary : Text) (r : Info) (m : RuleVersionManager)
      → IsConsistent m
      → IsConsistent (snapshot_rule put_time id_time now author summary r m)
  unfolding snapshot_rule new_version
  snapshot_rule-IsConsistent id_time now author summary r m h =
      All-insert IsTracked (to_string r.id) _ m.histories h (
        add_version-IsTracked (to_string r.id) (history_of (to_string r.id) m.histories) _ refl refl
          (history_of-IsTracked (to_string r.id) m.histories h))

  -- Snapshots of the rules of a workflow keep, of every history, that its versions are all of the
  -- rule whose key it has, and that each version names the version before it as its parent.
  pub snapshot_rules-IsConsistent :
      (clock : ℕ → ℕ × ℕ) (k : ℕ) (author summary : Text) (rs : List (Option Info))
      (m : RuleVersionManager)
      → IsConsistent m
      → IsConsistent (snapshot_rules put_time clock k author summary rs m)
  unfolding snapshot_rules
  snapshot_rules-IsConsistent clock k author summary [] m h = h
  snapshot_rules-IsConsistent clock k author summary (none ∷ rs) m h =
      snapshot_rules-IsConsistent clock (suc k) author summary rs m h
  snapshot_rules-IsConsistent clock k author summary (some r ∷ rs) m h =
      snapshot_rules-IsConsistent clock (suc k) author summary rs
        (snapshot_rule put_time (clock k).0 (clock k).1 author summary r m)
        (snapshot_rule-IsConsistent (clock k).0 (clock k).1 author summary r m h)
