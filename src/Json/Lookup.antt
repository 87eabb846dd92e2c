-- ===== src/Json/Lookup.antt =====
-- What JsonRuleRepository::findById finds after any calls.
use fast_rules.Base.{
  ℕ, ◌≡◌, refl, sym, ap, subst, some_injective, ◌∙◌, inl, inr, List, [], ◌∷◌, Option, none, some,
  if◌then◌else◌, ◌==◌, Bool-cases, arith,
}
use fast_rules.Base.Int.{ℤ, ℤ_eq}
use fast_rules.Rule.{Info, Rules, nil, cons}
use fast_rules.Versioning.{with_info}
use fast_rules.Json.{JsonLibrary}
use fast_rules.Json.Repository.{
  Repository, upsert, rule_to_json, upsert_rules, save, remove, find_by_id, flush, load, as_rule,
}
use fast_rules.Json.Stored.{IsStorable, json_to_rule-rule_to_json, id-rule_to_json}
use fast_rules.Json.Map.{
  RuleMap, put, put_rules, put_rule, drop_id, AllStorable, Call, call_save, call_remove, call_flush,
  effect, CanStore, stored,
}
use fast_rules.Json.Items.{
  IsIndexed, at_id, at_id-replace, replace-IsIndexed, at_id-remove, upsert-replace, keep-IsIndexed,
  remove-items, flush-items,
}

module _ (library : JsonLibrary) where
  open library use {Value, from_int, same_ints}

  abbrev pub run : List Call → Repository library → Repository library
  run [] s = s
  run (call_save r ∷ calls) s = run calls (save library r s)
  run (call_remove id ∷ calls) s = run calls (remove library id s)
  run (call_flush b ∷ calls) s = run calls (flush library b s).0

  abbrev item_of : Option Info → Option Value
  item_of none = none
  item_of (some r) = some (rule_to_json library r)

  abbrev AllStored : RuleMap → Type 0
  AllStored m = (k : ℤ) (r : Info) → m k ≡ some r → IsStorable r

  -- The items are those of the rules of a map.
  record Holds (m : RuleMap) (items : List Value) : Type 0 where
    pub indexed : IsIndexed library items
    pub found : (k : ℤ) → at_id library k items ≡ item_of (m k)
    pub fits : AllStored m

  item_of-put :
      (r : Info) (m : RuleMap) (k : ℤ)
      → (if r.id == k then some (rule_to_json library r) else item_of (m k)) ≡ item_of (put r m k)
  item_of-put r m k = elim (Bool-cases (r.id == k)) [ inl t ↦ rw t | inr f ↦ rw f ]

  item_of-drop :
      (n : ℤ) (m : RuleMap) (k : ℤ)
      → (if n == k then none else item_of (m k)) ≡ item_of (drop_id n m k)
  item_of-drop n m k = elim (Bool-cases (n == k)) [ inl t ↦ rw t | inr f ↦ rw f ]

  put-Holds :
      (r : Info) (m : RuleMap) (items : List Value)
      → IsStorable r
      → Holds m items
      → Holds (put r m) (upsert library (rule_to_json library r) items)
  put-Holds r m items f h =
      let item = rule_to_json library r in
      let e = id-rule_to_json library r in
      subst (Holds (put r m)) (sym (upsert-replace library (from_int r.id) item items e)) (record {
        indexed = replace-IsIndexed library r.id item items e h.indexed;
        found = λ k.
            at_id-replace library k r.id item items e h.indexed
            ∙ ap (λ o. if r.id == k then some item else o) (h.found k)
            ∙ item_of-put r m k;
        fits = λ k q g. elim (Bool-cases (r.id == k)) [
          | inl t ↦ subst IsStorable (some_injective (rw t at g)) f
          | inr n ↦ h.fits k q (rw n at g)
        ];
      })

  put_rules-Holds :
      (rs : Rules) (m : RuleMap) (items : List Value)
      → AllStorable rs
      → Holds m items
      → Holds (put_rules rs m) (upsert_rules library rs items)
  unfolding upsert_rules
  put_rules-Holds nil m items f h = h
  put_rules-Holds (cons info kids rest) m items f h =
      put_rules-Holds rest (put info m) _ f.1 (put-Holds info m items f.0 h)

  remove-Holds :
      (n : ℤ) (m : RuleMap) (s : Repository library)
      → Holds m s.items
      → Holds (drop_id n m) (remove library n s).items
  remove-Holds n m s h = subst (Holds (drop_id n m)) (sym (remove-items library n s)) (record {
    indexed = keep-IsIndexed library _ s.items h.indexed;
    found = λ k.
        at_id-remove library k n s.items h.indexed
        ∙ ap (λ o. if n == k then none else o) (h.found k)
        ∙ item_of-drop n m k;
    fits = λ k r g. elim (Bool-cases (n == k)) [
      | inl t ↦ absurd (ground (arith, rw t at g))
      | inr f ↦ h.fits k r (rw f at g)
    ];
  })

  run-Holds :
      (calls : List Call) (m : RuleMap) (s : Repository library)
      → CanStore calls
      → Holds m s.items
      → Holds (effect calls m) (run calls s).items
  unfolding save
  run-Holds [] m s c h = h
  run-Holds (call_save r ∷ calls) m s c h =
      run-Holds calls (put_rule r m) (save library r s) c.1
        (put_rules-Holds r.child_rules (put r.info m) _ c.0.1 (put-Holds r.info m s.items c.0.0 h))
  run-Holds (call_remove id ∷ calls) m s c h =
      run-Holds calls (drop_id id m) (remove library id s) c (remove-Holds id m s h)
  run-Holds (call_flush b ∷ calls) m s c h =
      run-Holds calls m (flush library b s).0 c (subst (Holds m) (sym (flush-items library b s)) h)

  as_rule-item_of :
      (self : ℕ) (o : Option Info)
      → ((r : Info) → o ≡ some r → IsStorable r)
      → as_rule library self (item_of o) ≡ stored self o
  as_rule-item_of self none f = refl
  as_rule-item_of self (some r) f =
      ap (λ i. some (with_info i)) (json_to_rule-rule_to_json library self r (f r refl))

  empty-Holds : Holds (λ _. none) (load library none).items
  unfolding load
  empty-Holds = record { indexed = tt; found = λ k. refl; fits = λ k r e. absurd (ground arith) }

  -- After any calls of save, remove and flush on a repository without a file, findById answers for
  -- each id as a map does on which the same calls were made: saving a rule puts it and then each of
  -- its children, with all fields but the children and the rate limiter. The ids, priorities and
  -- timeouts of the saved rules are 32-bit numbers, and the cache durations 64-bit numbers.
  pub find_by_id-run :
      (calls : List Call) (self : ℕ) (id : ℤ)
      → CanStore calls
      → find_by_id library self id (run calls (load library none))
        ≡ stored self (effect calls (λ _. none) id)
  unfolding find_by_id
  find_by_id-run calls self id c =
      let h = run-Holds calls (λ _. none) (load library none) c empty-Holds in
      ap (as_rule library self) (h.found id)
      ∙ as_rule-item_of self (effect calls (λ _. none) id) (h.fits id)
