-- ===== src/Examples/Runs.antt =====
-- A program with a toy engine: every source compiles, an expression holds exactly if it is "yes",
-- and the clock ticks by one at each reading.
use fast_rules.Base.{ℕ, ◌≡◌, refl, List, [], ◌∷◌, true, Option, none, some, length, arith, ◌==◌}
use fast_rules.Base.Int.{pos}
use fast_rules.Base.Text.{Text, Text_eq, codes}
use fast_rules.Context.{empty_context}
use fast_rules.Parameters.{Platform}
use fast_rules.Rule.{Info, Rule, Rules}
use fast_rules.Execution.Cache.{cache_period}
use fast_rules.Execution.World.{World, LuaEngine, done}
use fast_rules.Execution.Run.{execute}
use fast_rules.Execution.Run.Ensures.{IsSound, IsWellFormed}
use fast_rules.Execution.Run.Sound.{execute-IsSound}
use fast_rules.Execution.Run.Posted.{IsPosted, execute-IsPosted}
use fast_rules.Workflow.Runs.{drain, run_rules}
use fast_rules.Workflow.Runs.Streams.{drain-run_rules}

abbrev pub platform : Platform (Unit {0})
platform = record {
  type_name = λ t. [];
  hash_code = λ t. 0;
  print_float = λ x. [];
  hash = length;
  clock = λ n. n;
}

-- The state of the engine is the last source that it compiled.
abbrev pub engine : LuaEngine Text (Unit {0})
engine = record {
  compile_expression = λ s e. (done (some (pos 1)), s);
  compile_action = λ s e. (done (some (pos 2)), e);
  evaluate_expression = λ ref ps c t e. (done (e == codes "yes"), e);
  execute_action = λ ref ps c t e. (done tt, e);
  generation = λ e. pos 0;
  instance_id = λ e. 0;
}

abbrev pub world : World Text (Unit {0})
world = record {
  context = empty_context;
  counters = record {
    executed = 0;
    successful = 0;
    failed = 0;
    skipped = 0;
    cached = 0;
    timed_out = 0;
    rate_limited = 0;
    compile_count = 0;
    compile_failures = 0;
    execution_time_ns = 0;
  };
  caches = [];
  compilations = [];
  global_limiter = [];
  limiters = [];
  engine = [];
  readings = 0;
}

abbrev pub info : ℕ → Text → Option Text → Info
info n expression dependency = record {
  self = n;
  id = pos n;
  name = codes "r";
  description = [];
  expression = expression;
  action = [];
  priority = pos 0;
  is_active = true;
  timeout = none;
  cache_duration = none;
  depends_on_rule_name = dependency;
  rate_limiter = none;
}

abbrev parent : Rule
parent = record {
  info = info 1 (codes "yes") none;
  child_rules = Rules.cons (info 2 (codes "no") none) Rules.nil Rules.nil;
}

world-IsWellFormed : IsWellFormed world
world-IsWellFormed = (omega arith, tt)

execute-IsSound_example :
    IsSound (execute platform engine parent [] world).0
    × IsWellFormed (execute platform engine parent [] world).1
execute-IsSound_example = execute-IsSound platform engine parent [] world world-IsWellFormed

uncached : cache_period none ≡ none
unfolding cache_period
uncached = refl

execute-IsPosted_example :
    IsPosted parent.info
      (execute platform engine parent [] world).0
      (execute platform engine parent [] world).1
execute-IsPosted_example = execute-IsPosted platform engine parent [] world refl uncached

abbrev pub order : List Rule
order =
    record { info = info 3 (codes "yes") none; child_rules = Rules.nil }
    ∷ record { info = info 4 (codes "no") (some (codes "r")); child_rules = Rules.nil }
    ∷ []

drain-run_rules_example :
    drain platform engine 3 order [] world ≡ run_rules platform engine order [] world
drain-run_rules_example =
    drain-run_rules platform engine [] 3 order world (uncached, (uncached, tt)) (omega arith)
