-- ===== src/Examples/Limits.antt =====
-- A limiter that lets the rule "r" run twice in a second (compare tests/test_rate_limiter.cpp).
use fast_rules.Base.{◌≤◌, refl, List, [], ◌∷◌, ◌≡◌, arith}
use fast_rules.Base.Int.{pos}
use fast_rules.Base.Dict.{lookup, insert}
use fast_rules.Base.Text.{Text}
use fast_rules.Limiter.{RuleState, RateLimiter, is_allowed, drop_old}
use fast_rules.Limiter.Calls.{Call, asks, per_second, step, run, InOrder}
use fast_rules.Limiter.Bounds.{run-bounded}
use fast_rules.Limiter.Window.{count_between}

abbrev r : Text
r = b'r' ∷ []

abbrev twice : RuleState
twice = record {
  config = record {
    rule_name = r;
    max_executions_per_second = pos 2;
    max_executions_per_minute = pos 0;
    burst_size = pos 0;
  };
  second_window = [];
  minute_window = [];
}

abbrev limiter : RateLimiter
limiter = (r, twice) ∷ []

abbrev calls : List Call
calls = asks r 10 11 ∷ asks r 20 21 ∷ asks r 30 31 ∷ asks r 2_000_000_000 2_000_000_001 ∷ []

calls-InOrder : InOrder 0 calls
calls-InOrder = (
  omega arith,
  omega arith,
  (omega arith, omega arith, (omega arith, omega arith, (omega arith, omega arith, tt))),
)

-- The third call within the second is refused.
granted : (run r limiter calls).0 ≡ 11 ∷ 21 ∷ 2_000_000_001 ∷ []
unfolding run step is_allowed lookup drop_old insert
granted = refl

run-bounded_example : count_between 11 1_000_000_011 (run r limiter calls).0 ≤ 2
unfolding lookup
run-bounded_example =
    run-bounded r per_second 2 0 limiter twice calls 11 refl (refl, refl) refl calls-InOrder
