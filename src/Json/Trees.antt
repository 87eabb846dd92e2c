-- ===== src/Json/Trees.antt =====
-- Rules with their children, written to JSON and read back.
use fast_rules.Base.{ℕ, zero, suc, ◌+◌, ◌≤◌, max, ◌≡◌, refl, ap, ◌∙◌, List, [], ◌∷◌, arith}
use fast_rules.Base.Text.{codes}
use fast_rules.Rule.{Info, Rules, nil, cons, Rule}
use fast_rules.Json.{JsonLibrary}
use fast_rules.Json.Load.{
  ok, Store, Load, ◌>>=◌, go_on, pure, or_else, and_read, parse_info, parse_rules, parse_rule_at,
}
use fast_rules.Json.Save.{rule_value, serialize_rules}
use fast_rules.Json.Saved.{Fits, saved_at, parse_info-rule_value}

-- How deep rules are nested.
abbrev pub height : Rules → ℕ
height nil = 0
height (cons info kids rest) = max (suc (height kids)) (height rest)

-- What holds of all rules of a tree.
abbrev pub AllFit : Rules → Type 0
AllFit nil = Unit {0}
AllFit (cons info kids rest) = Fits info × AllFit kids × AllFit rest

-- The same rules, each at some address and without its name and its rate limiter.
abbrev pub IsCopy : Rules → Rules → Type 0
IsCopy nil nil = Unit {0}
IsCopy nil (cons info kids rest) = ⊥
IsCopy (cons info kids rest) nil = ⊥
IsCopy (cons info kids rest) (cons info' kids' rest') =
    ((self : ℕ) × (info' ≡ saved_at self info)) × IsCopy kids kids' × IsCopy rest rest'

abbrev pub rule_of : Info → Rules → Rule
rule_of info kids = record { info = info; child_rules = kids }

pub >>=-ok :
    {A B : Type 0} (m : Load A) (f : A → Load B) (s s' : Store) (a : A)
    → m s ≡ (ok a, s')
    → (m >>= f) s ≡ f a s'
>>=-ok m f s s' a e = ap (go_on f) e

module _ (library : JsonLibrary) where
  open library use {Value, find_object, list_back}

  pub parse_rule_at-rule_value :
      (levels : ℕ) (r : Info) (children : List Value) (kids : Rules) (s s' : Store)
      → Fits r
      → parse_rules library
          (parse_rule_at library levels)
          children
          (record s { addresses = s.addresses + 1 })
        ≡ (ok kids, s')
      → parse_rule_at library (suc levels) (rule_value library r children) s
        ≡ (ok (record { info = saved_at s.addresses r; child_rules = kids }), s')
  unfolding parse_rule_at
  parse_rule_at-rule_value levels r children kids s s' fits e =
      let v = rule_value library r children in
      let listed : or_else (and_read (library.find (codes "childRules") v) library.as_list) []
          ≡ children =
        simp (find_object, list_back) in
      let kids_of =
        parse_rules library (parse_rule_at library levels)
          (or_else (and_read (library.find (codes "childRules") v) library.as_list) []) in
      let attach = λ (i : Info) (kids : Rules). pure (rule_of i kids) in
      >>=-ok (parse_info library v) (λ i. kids_of >>= attach i) s
        (record s { addresses = s.addresses + 1 }) (saved_at s.addresses r)
        (parse_info-rule_value library r children s fits)
      ∙ >>=-ok kids_of (attach (saved_at s.addresses r)) (record s { addresses = s.addresses + 1 })
          s' kids
          (ap
              (λ vs.
                parse_rules library (parse_rule_at library levels) vs
                  (record s { addresses = s.addresses + 1 }))
              listed
            ∙ e)

  parse_rules-cons :
      (levels : ℕ) (v : Value) (vs : List Value) (r : Rule) (rest : Rules) (s s' s'' : Store)
      → parse_rule_at library levels v s ≡ (ok r, s')
      → parse_rules library (parse_rule_at library levels) vs s' ≡ (ok rest, s'')
      → parse_rules library (parse_rule_at library levels) (v ∷ vs) s
        ≡ (ok (cons r.info r.child_rules rest), s'')
  unfolding parse_rules
  parse_rules-cons levels v vs r rest s s' s'' e f =
      let others = parse_rules library (parse_rule_at library levels) vs in
      let put = λ (q : Rule) (qs : Rules). pure (cons q.info q.child_rules qs) in
      >>=-ok (parse_rule_at library levels v) (λ q. others >>= put q) s s' r e
      ∙ >>=-ok others (put r) s' s'' rest f

  -- Rules that are nested no deeper than `levels` are written, and read back as copies.
  pub parse_rules-serialize_rules :
      (levels : ℕ) (rs : Rules) (s : Store)
      → height rs ≤ levels
      → AllFit rs
      → (vs : List Value) × (copy : Rules) × (s' : Store) × (serialize_rules library levels rs
          ≡ ok vs)
        × (parse_rules library (parse_rule_at library levels) vs s ≡ (ok copy, s'))
        × IsCopy rs copy
  unfolding serialize_rules parse_rules
  parse_rules-serialize_rules levels nil s h fits = ([], nil, s, refl, refl, tt)
  parse_rules-serialize_rules zero (cons info kids rest) s h fits = absurd (omega arith)
  parse_rules-serialize_rules (suc levels) (cons info kids rest) s h fits =
      let (children, kids', s', e, e', c) =
        parse_rules-serialize_rules levels kids (record s { addresses = s.addresses + 1 })
          (omega arith) fits.1 in
      let (values, rest', s'', f, f', d) =
        parse_rules-serialize_rules (suc levels) rest s' (omega arith) fits.2 in
      let root = parse_rule_at-rule_value levels info children kids' s s' fits.0 e' in
      (
        rule_value library info children ∷ values,
        cons (saved_at s.addresses info) kids' rest',
        s'',
        simp (e, f),
        parse_rules-cons (suc levels) (rule_value library info children) values
            (record { info = saved_at s.addresses info; child_rules = kids' }) rest' s s' s'' root
            f',
        ((s.addresses, refl), c, d),
      )
