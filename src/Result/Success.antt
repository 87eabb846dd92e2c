-- ===== src/Result/Success.antt =====
-- isFullySuccessful speaks of the whole tree of results.
use fast_rules.Base.{◌≡◌, refl, true, ◌↔◌, arith, &&-eq-true}
use fast_rules.Result.{
  Head, Results, nil, cons, RuleResult, is_success, all_fully_successful, is_fully_successful,
}

-- Where a result stands in a forest of results.
pub data Within (h : Head) : Results → Type 0 where
  here : {kids rest : Results} → Within h (cons h kids rest)
  below : {g : Head} {kids rest : Results} → Within h kids → Within h (cons g kids rest)
  beside : {g : Head} {kids rest : Results} → Within h rest → Within h (cons g kids rest)

all-Within :
    (rs : Results) (h : Head) → all_fully_successful rs ≡ true → Within h rs → is_success h ≡ true
unfolding all_fully_successful
all-Within nil h t w = elim w [ ]
all-Within (cons g kids rest) h t here = ground arith
all-Within (cons g kids rest) h t (below w) = all-Within kids h (ground arith) w
all-Within (cons g kids rest) h t (beside w) = all-Within rest h (ground arith) w

Within-all :
    (rs : Results)
    → ((h : Head) → Within h rs → is_success h ≡ true)
    → all_fully_successful rs ≡ true
unfolding all_fully_successful
Within-all nil f = refl
Within-all (cons g kids rest) f = ground (
  arith,
  f g here,
  Within-all kids (λ h w. f h (below w)),
  Within-all rest (λ h w. f h (beside w)),
)

-- A result is fully successful exactly if it and all results below it, at any depth, succeeded.
pub is_fully_successful_iff :
    (r : RuleResult)
    → (is_fully_successful r ≡ true)
      ↔ ((is_success r.head ≡ true) × ((h : Head) → Within h r.child_results → is_success h ≡ true))
unfolding is_fully_successful
is_fully_successful_iff r = (
  λ t.
      let (own, rest) = &&-eq-true (is_success r.head) (all_fully_successful r.child_results) t in
      (own, λ h w. all-Within r.child_results h rest w),
  λ p. ground (arith, p.0, Within-all r.child_results p.1),
)
