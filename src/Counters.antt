-- ===== src/Counters.antt =====
-- src/performance_counters.cpp: the global counters, atomic 64-bit words that wrap around.
pub mod Balance
use fast_rules.Base.{ℕ, ◌+◌, ◌%◌, Bool, true, false, if◌then◌else◌}

abbrev pub word : ℕ
word = 18_446_744_073_709_551_616

pub record Counters : Type 0 where
  pub executed : ℕ
  pub successful : ℕ
  pub failed : ℕ
  pub skipped : ℕ
  pub cached : ℕ
  pub timed_out : ℕ
  pub rate_limited : ℕ
  pub compile_count : ℕ
  pub compile_failures : ℕ
  pub execution_time_ns : ℕ

-- `fetch_add`.
abbrev pub fetch_add : ℕ → ℕ → ℕ
fetch_add n m = (n + m) % word

abbrev pub add_if : Bool → ℕ → ℕ
add_if b n = if b then fetch_add n 1 else n

unfoldable pub record_execution :
    (success skipped cached timed_out rate_limited : Bool) → Counters → Counters
record_execution success skipped cached timed_out rate_limited c = record c {
  executed = fetch_add c.executed 1;
  successful = add_if success c.successful;
  failed = if success then c.failed else fetch_add c.failed 1;
  skipped = add_if skipped c.skipped;
  cached = add_if cached c.cached;
  timed_out = add_if timed_out c.timed_out;
  rate_limited = add_if rate_limited c.rate_limited;
}

unfoldable pub record_compile : Bool → Counters → Counters
record_compile success c = record c {
  compile_count = fetch_add c.compile_count 1;
  compile_failures = if success then c.compile_failures else fetch_add c.compile_failures 1;
}

unfoldable pub record_execution_time : ℕ → Counters → Counters
record_execution_time ns c = record c { execution_time_ns = fetch_add c.execution_time_ns ns }

unfoldable pub reset : Counters → Counters
reset c = record {
  executed = 0;
  successful = 0;
  failed = 0;
  skipped = 0;
  cached = 0;
  timed_out = 0;
  rate_limited = 0;
  compile_count = 0;
  compile_failures = 0;
  execution_time_ns = 0;
}
