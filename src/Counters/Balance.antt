-- ===== src/Counters/Balance.antt =====
-- What the counters say together.
use fast_rules.Base.{◌+◌, ◌%◌, ◌≡◌, Bool, true, false, arith}
use fast_rules.Counters.{Counters, word, record_execution}

-- Up to the wrap-around of the words, each recorded execution is a success or a failure.
abbrev pub IsBalanced : Counters → Type 0
IsBalanced c = c.executed ≡ (c.successful + c.failed) % word

pub record_execution-IsBalanced :
    (success skipped cached timed_out rate_limited : Bool) (c : Counters)
    → IsBalanced c
    → IsBalanced (record_execution success skipped cached timed_out rate_limited c)
unfolding record_execution
record_execution-IsBalanced true s k t r c h = omega arith
record_execution-IsBalanced false s k t r c h = omega arith
