-- ===== src/Versioning/Rollback.antt =====
-- What a rollback restores, and which version counts at a time.
use fast_rules.Base.{
  ℕ, ◌≤◌, ◌<◌, ◌≡◌, refl, ◌∙◌, List, [], ◌∷◌, ◌++◌, Bool, true, false, ◌&&◌, Option, none, some,
  arith, if◌then◌else◌, leb, eq_refl, All, Has, here, Has-append_left, Has-append_right, append-nil,
  append_assoc, All-append,
}
use fast_rules.Base.Dict.{lookup-insert_self}
use fast_rules.Base.Text.{Text, Text_eq, to_string}
use fast_rules.Base.Parse.{IsInt, stoi, stoi-to_string}
use fast_rules.Execution.World.{done}
use fast_rules.Rule.{Info}
use fast_rules.Versioning.{
  RuleVersion, RuleVersionHistory, RuleVersionManager, find_version, get_version, is_newer, best_at,
  get_version_at, new_info, with_info, restore, rollback_to, generate_version_id, next_count,
  history_of, new_version, add_version, snapshot_rule, get_history,
}

-- A new version at the end is found, if no version before it has its id.
find_version-append :
    (id : Text) (vs : List RuleVersion) (v : RuleVersion)
    → find_version id vs ≡ none
    → v.version_id ≡ id
    → find_version id (vs ++ v ∷ []) ≡ some v
find_version-append id [] v h e = rw (e, eq_refl id) refl
find_version-append id (w ∷ vs) v h e = ground (arith, find_version-append id vs v)

-- The rule that a snapshot of `r` keeps: what a new rule has, but for five fields.
abbrev pub restored : ℕ → Info → Info
restored self r = record (new_info self) {
  id = r.id;
  expression = r.expression;
  action = r.action;
  priority = r.priority;
  is_active = r.is_active;
}

rollback_to-found :
    (self : ℕ) (id : Text) (h : RuleVersionHistory) (v : RuleVersion)
    → get_version id h ≡ some v
    → rollback_to self id h ≡ restore self id v
unfolding rollback_to
rollback_to-found self id h v e = rw (e, rollback_to) refl

restore_numeric :
    (self : ℕ) (id : Text) (r : Info) (v : RuleVersion)
    → stoi v.rule_name ≡ some r.id
    → v.expression ≡ r.expression
      × v.action ≡ r.action
      × v.priority ≡ r.priority
      × v.is_active ≡ r.is_active
    → restore self id v ≡ done (with_info (restored self r))
unfolding restore
restore_numeric self id r v e (h₁, h₂, h₃, h₄) = rw (e, restore, h₁, h₂, h₃, h₄) refl

module _ (put_time : ℕ → Text) where
  -- A snapshot of a rule whose id is an `int` goes into the history of the rule. Rolling that history
  -- back to the new version, whose id no version of the history had before, returns a rule with the
  -- id, expression, action, priority and activity of the rule, and with the defaults elsewhere.
  pub rollback_to-snapshot_rule :
      (id_time now self : ℕ) (author summary : Text) (r : Info) (m : RuleVersionManager)
      → IsInt r.id
      → get_version
          (generate_version_id put_time id_time (next_count m.counter))
          (history_of (to_string r.id) m.histories)
        ≡ none
      → (h : RuleVersionHistory) × (get_history r.id
              (snapshot_rule put_time id_time now author summary r m)
            ≡ some h
          × rollback_to self (generate_version_id put_time id_time (next_count m.counter)) h
            ≡ done (with_info (restored self r)))
  unfolding snapshot_rule get_history rollback_to restore new_version add_version get_version
  rollback_to-snapshot_rule id_time now self author summary r m is_int fresh =
      let key = to_string r.id in
      let h = history_of key m.histories in
      let id = generate_version_id put_time id_time (next_count m.counter) in
      let v = new_version put_time id_time now author summary (next_count m.counter) h r in
      let after = add_version v (record h { rule_name = key }) in
      (
        after,
        (
          lookup-insert_self key _ m.histories,
          rollback_to-found self id after v (find_version-append id h.versions v fresh refl)
              ∙ restore_numeric self id r v (stoi-to_string r.id is_int) (refl, refl, refl, refl),
        ),
      )

-- The best version so far is none where no version yet is old enough.
abbrev pub IsBest : ℕ → Option RuleVersion → List RuleVersion → Type 0
IsBest t none vs = All (λ v. t < v.created_at) vs
IsBest t (some b) vs =
    Has b vs × b.created_at ≤ t × All (λ v. v.created_at ≤ t → v.created_at ≤ b.created_at) vs

Has-last {ℓ} : {A : Type ℓ} (xs : List A) (x : A) → Has x (xs ++ x ∷ [])
Has-last xs x = Has-append_right xs here

weaken :
    (t : ℕ) (b v : RuleVersion) (seen : List RuleVersion)
    → b.created_at ≤ v.created_at
    → All (λ u. u.created_at ≤ t → u.created_at ≤ b.created_at) seen
    → All (λ u. u.created_at ≤ t → u.created_at ≤ v.created_at) seen
weaken t b v [] le h = tt
weaken t b v (u ∷ seen) le h = (λ old. omega (arith, h.0 old), weaken t b v seen le h.1)

too_new :
    (t : ℕ) (v : RuleVersion) (seen : List RuleVersion)
    → All (λ u. t < u.created_at) seen
    → All (λ u. u.created_at ≤ t → u.created_at ≤ v.created_at) seen
too_new t v [] h = tt
too_new t v (u ∷ seen) h = (λ old. absurd (omega (arith, h.0)), too_new t v seen h.1)

IsBest-step :
    (t : ℕ) (best : Option RuleVersion) (seen : List RuleVersion) (v : RuleVersion) (c : Bool)
    → (leb v.created_at t && is_newer v best) ≡ c
    → IsBest t best seen
    → IsBest t (if c then some v else best) (seen ++ v ∷ [])
IsBest-step t none seen v true e h =
    (Has-last seen v, ground arith, All-append _ seen v (too_new t v seen h) (λ old. omega arith))
IsBest-step t none seen v false e h = All-append _ seen v h (ground arith)
IsBest-step t (some b) seen v true e h = (
  Has-last seen v,
  ground arith,
  All-append _ seen v (weaken t b v seen (ground arith) h.2) (λ old. omega arith),
)
IsBest-step t (some b) seen v false e h =
    (Has-append_left (v ∷ []) h.0, h.1, All-append _ seen v h.2 (λ old. ground arith))

best_at-IsBest :
    (t : ℕ) (vs : List RuleVersion) (best : Option RuleVersion) (seen : List RuleVersion)
    → IsBest t best seen
    → IsBest t (best_at t best vs) (seen ++ vs)
best_at-IsBest t [] best seen h = rw (append-nil seen) h
best_at-IsBest t (v ∷ vs) best seen h =
    rw (← append_assoc seen (v ∷ []) vs)
      (best_at-IsBest t vs _ (seen ++ v ∷ []) (IsBest-step t best seen v _ refl h))

-- The version that counts at a time is one of the history, not created later, and no version that
-- was created by then is newer than it; there is none exactly if every version was created later.
pub get_version_at-IsBest :
    (h : RuleVersionHistory) (t : ℕ) → IsBest t (get_version_at t h) h.versions
unfolding get_version_at
get_version_at-IsBest h t = best_at-IsBest t h.versions none [] tt
