-- ===== src/Execution/World.antt =====
-- What a running rule reads and writes: the context, the counters, the private state of the rules,
-- the limiters, the Lua engine and the clock.
use fast_rules.Base.{ℕ, ◌+◌, List, [], Bool, Option, none, some, ℕ_eq}
use fast_rules.Base.Int.{ℤ}
use fast_rules.Base.Dict.{Dict, lookup, insert}
use fast_rules.Base.Text.{Text, Text_eq}
use fast_rules.Context.{RuleContext}
use fast_rules.Counters.{Counters}
use fast_rules.Limiter.{RateLimiter, is_allowed}
use fast_rules.Parameters.{Value, RuleParameter, Platform}
use fast_rules.Execution.Cache.{Cache, new_cache}

-- The exception classes that the handlers tell apart, with the messages. RuleException derives
-- `std::exception`; the limiter's, the timeout's and every `standard` one derive
-- `std::runtime_error`; `unknown` is anything else that is thrown.
pub data Exception : Type 0 where
  rate_limit timeout rule standard : (message : Text) → Exception
  unknown : Exception

pub data Outcome {ℓ} (A : Type ℓ) : Type ℓ where
  done : A → Outcome A
  raise : Exception → Outcome A

-- The Lua engine, as far as rules use it (include/fastrules/lua_engine.hpp). A script reads the
-- context and does not write it.
pub record LuaEngine (E F : Type 0) : Type 0 where
  pub compile_expression : Text → E → Outcome (Option ℤ) × E
  pub compile_action : Text → E → Outcome (Option ℤ) × E
  pub evaluate_expression :
      ℤ → List (RuleParameter F) → RuleContext (Value F) → Option ℤ → E → Outcome Bool × E
  pub execute_action :
      ℤ → List (RuleParameter F) → RuleContext (Value F) → Option ℤ → E → Outcome (Unit {0}) × E
  pub generation : E → ℤ
  pub instance_id : E → ℕ

pub record EngineCompilation : Type 0 where
  pub expression_ref : Option ℤ
  pub action_ref : Option ℤ
  pub generation : ℤ
  pub source_hash : ℕ

-- The private state of a rule is kept under the rule's address, a compilation under the id of its
-- engine. `readings` counts the readings of the clock.
pub record World (E F : Type 0) : Type 0 where
  pub context : RuleContext (Value F)
  pub counters : Counters
  pub caches : Dict ℕ Cache
  pub compilations : Dict ℕ (Dict ℕ EngineCompilation)
  pub global_limiter : RateLimiter
  pub limiters : Dict ℕ RateLimiter
  pub engine : E
  pub readings : ℕ

abbrev pub get_or {ℓ} : {A : Type ℓ} → A → Option A → A
get_or a none = a
get_or a (some b) = b

abbrev pub Action : Type 0 → Type 0 → Type 0 → Type 0
Action E F A = World E F → A × World E F

module _ {E F : Type 0} where
  infixl 5 ◌>>=◌ ◌>>◌
  abbrev pub ◌>>=◌ : {A B : Type 0} → Action E F A → (A → Action E F B) → Action E F B
  ◌>>=◌ m f w = f (m w).0 (m w).1

  abbrev pub ◌>>◌ : {A B : Type 0} → Action E F A → Action E F B → Action E F B
  m >> k = m >>= λ _. k

  abbrev pub pure : {A : Type 0} → A → Action E F A
  pure a w = (a, w)

  abbrev pub reads : {A : Type 0} → (World E F → A) → Action E F A
  reads f w = (f w, w)

  -- The next step, unless an exception is on its way.
  abbrev pub next :
      {A B : Type 0} → (A → Action E F (Outcome B)) → Outcome A → Action E F (Outcome B)
  next f (done a) = f a
  next f (raise e) = pure (raise e)

  abbrev pub on_context : (RuleContext (Value F) → RuleContext (Value F)) → Action E F (Unit {0})
  on_context f w = (tt, record w { context = f w.context })

  abbrev pub count : (Counters → Counters) → Action E F (Unit {0})
  count f w = (tt, record w { counters = f w.counters })

  abbrev pub cache_of : ℕ → World E F → Cache
  cache_of self w = get_or new_cache (lookup self w.caches)

  abbrev pub put_cache : ℕ → Cache → Action E F (Unit {0})
  put_cache self c w = (tt, record w { caches = insert self c w.caches })

  abbrev pub ask_engine : {A : Type 0} → (E → A × E) → Action E F A
  ask_engine f w = ((f w.engine).0, record w { engine = (f w.engine).1 })

  -- `steady_clock::now()`.
  abbrev pub read_clock : Platform F → Action E F ℕ
  read_clock platform w = (platform.clock w.readings, record w { readings = w.readings + 1 })

  -- `isAllowed` of the rule's own limiter, else of the global one; the clock is read twice, used or
  -- not.
  unfoldable pub ask_limiter : Platform F → Option ℕ → Text → Action E F Bool
  unfolding is_allowed lookup insert
  ask_limiter platform which name = do
    cleaned ← read_clock platform
    now ← read_clock platform
    λ w. elim which [
      | none ↦
          let asked = is_allowed cleaned now name w.global_limiter in
          (asked.0, record w { global_limiter = asked.1 })
      | some a ↦
          let asked = is_allowed cleaned now name (get_or [] (lookup a w.limiters)) in
          (asked.0, record w { limiters = insert a asked.1 w.limiters })
    ]
