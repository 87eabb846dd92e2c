-- ===== src/Execution/Compile.antt =====
-- Rule::compile and the lookup of compiled chunks, of src/rule.cpp. The mutex makes a compilation
-- one step; the flag `isCompiled`, which only reports, is left out.
use fast_rules.Base.{
  ℕ, List, [], ◌∷◌, ◌++◌, not, Option, none, some, if◌then◌else◌, ◌==◌, ℕ_eq, is_empty,
}
use fast_rules.Base.Int.{ℤ, ℤ_eq, negsuc}
use fast_rules.Base.Dict.{lookup, insert}
use fast_rules.Base.Text.{Text, codes, to_string}
use fast_rules.Expression.{ValidationResult, validate}
use fast_rules.Parameters.{Platform}
use fast_rules.Rule.{Info, Rules, nil, cons}
use fast_rules.Execution.Key.{source_fingerprint}
use fast_rules.Execution.World.{
  Exception, rate_limit, timeout, rule, standard, unknown, Outcome, done, raise, LuaEngine,
  EngineCompilation, World, Action, ◌>>=◌, ◌>>◌, pure, next, ask_engine, get_or,
}

-- `std::exception::what`.
abbrev pub what : Exception → Text
what (rate_limit m) = m
what (timeout m) = m
what (rule m) = m
what (standard m) = m
what unknown = []

abbrev pub newline : ℕ
newline = 10

abbrev pub bullets : List Text → Text
bullets [] = []
bullets (e ∷ es) = codes "    - " ++ e ++ newline ∷ bullets es

abbrev pub rule_prefix : Info → Text
rule_prefix r = codes "Rule '" ++ to_string r.id ++ codes "': "

abbrev pub warning_lines : List Text → Text
warning_lines ws = if is_empty ws then [] else codes "  Warnings:" ++ newline ∷ bullets ws

unfoldable pub expression_error : Info → ValidationResult → Text
unfolding to_string
expression_error r v =
    rule_prefix r
    ++ codes "Expression validation failed"
    ++ newline ∷ codes "  Expression: "
    ++ r.expression
    ++ newline ∷ codes "  Errors:"
    ++ newline ∷ bullets v.errors
    ++ warning_lines v.warnings

unfoldable pub action_error : Info → ValidationResult → Text
unfolding to_string
action_error r v =
    rule_prefix r
    ++ codes "Action validation failed"
    ++ newline ∷ codes "  Action: "
    ++ r.action
    ++ newline ∷ codes "  Errors:"
    ++ newline ∷ bullets v.errors

unfoldable pub compile_error : Text → Info → Text → Text → Text
unfolding to_string
compile_error kind r source cause =
    rule_prefix r
    ++ codes "Failed to compile "
    ++ kind
    ++ newline ∷ codes "  "
    ++ source
    ++ newline ∷ codes "  Error: "
    ++ cause

-- `catch (const std::exception& e)` throws a RuleCompilationException in its place.
abbrev pub rethrow {ℓ} : {A : Type ℓ} → (Text → Text) → Outcome A → Outcome A
rethrow message (done a) = done a
rethrow message (raise unknown) = raise unknown
rethrow message (raise e) = raise (standard (message (what e)))

-- -1 stands for no chunk.
abbrev pub ref_or : Option ℤ → ℤ
ref_or o = get_or (negsuc 0) o

abbrev pub expression_ref_of : Option EngineCompilation → ℤ
expression_ref_of none = negsuc 0
expression_ref_of (some c) = ref_or c.expression_ref

abbrev pub action_ref_of : Option EngineCompilation → ℤ
action_ref_of none = negsuc 0
action_ref_of (some c) = ref_or c.action_ref

module _ {E F : Type 0} (platform : Platform F) (lua : LuaEngine E F) where
  -- A record of an older engine state, or of another source text, is not used.
  unfoldable pub lookup_compilation : Info → World E F → Option EngineCompilation
  unfolding lookup source_fingerprint
  lookup_compilation r w =
      elim (lookup (lua.instance_id w.engine) (get_or [] (lookup r.self w.compilations))) [
        | none ↦ none
        | some c ↦
            if not (c.generation == lua.generation w.engine)
            then none
            else if not (c.source_hash == source_fingerprint platform r)
            then none
            else some c
      ]

  unfoldable pub store_compilation : Info → EngineCompilation → Action E F (Unit {0})
  unfolding lookup insert
  store_compilation r c w = (
    tt,
    record w {
      compilations =
          insert r.self
            (insert (lua.instance_id w.engine) c (get_or [] (lookup r.self w.compilations)))
            w.compilations;
    },
  )

  unfoldable pub compile_expression_part : Info → Action E F (Outcome (Option ℤ))
  unfolding validate expression_error compile_error
  compile_expression_part r =
      let v = validate r.expression in
      if is_empty r.expression
      then pure (done none)
      else if not v.valid
      then pure (raise (standard (expression_error r v)))
      else ask_engine (lua.compile_expression r.expression) >>= λ o.
          pure (
            rethrow (compile_error (codes "expression") r (codes "Expression: " ++ r.expression)) o)

  unfoldable pub compile_action_part : Info → Action E F (Outcome (Option ℤ))
  unfolding validate action_error compile_error
  compile_action_part r =
      let v = validate r.action in
      if is_empty r.action
      then pure (done none)
      else if not v.valid
      then pure (raise (standard (action_error r v)))
      else ask_engine (lua.compile_action r.action) >>= λ o.
          pure (rethrow (compile_error (codes "action") r (codes "Action: " ++ r.action)) o)

  -- What follows the child rules, with the two references: the record of the compilation.
  unfoldable pub after_children :
      Info → ℤ → (e a : Option ℤ) → Outcome (Unit {0}) → Action E F (Outcome (Unit {0}))
  unfolding store_compilation source_fingerprint
  after_children r generation e a (raise x) = pure (raise x)
  after_children r generation e a (done _) =
      store_compilation r (record {
        expression_ref = e;
        action_ref = a;
        generation = generation;
        source_hash = source_fingerprint platform r;
      })
      >> pure (done tt)

  -- `children` compiles the child rules.
  unfoldable pub after_action :
      Info
      → Action E F (Outcome (Unit {0}))
      → ℤ
      → Option ℤ
      → Outcome (Option ℤ)
      → Action E F (Outcome (Unit {0}))
  unfolding after_children
  after_action r children generation e (raise x) = pure (raise x)
  after_action r children generation e (done a) = children >>= after_children r generation e a

  unfoldable pub after_expression :
      Info
      → Action E F (Outcome (Unit {0}))
      → ℤ
      → Outcome (Option ℤ)
      → Action E F (Outcome (Unit {0}))
  unfolding compile_action_part after_action
  after_expression r children generation (raise x) = pure (raise x)
  after_expression r children generation (done e) =
      compile_action_part r >>= after_action r children generation e

  unfoldable pub compile_new :
      Info → Action E F (Outcome (Unit {0})) → Action E F (Outcome (Unit {0}))
  unfolding compile_expression_part after_expression
  compile_new r children w =
      (compile_expression_part r >>= after_expression r children (lua.generation w.engine)) w

  unfoldable pub compile_unless :
      Option EngineCompilation
      → Info
      → Action E F (Outcome (Unit {0}))
      → Action E F (Outcome (Unit {0}))
  unfolding compile_new
  compile_unless (some c) r children = pure (done tt)
  compile_unless none r children = compile_new r children

  unfoldable pub compile_with :
      Info → Action E F (Outcome (Unit {0})) → Action E F (Outcome (Unit {0}))
  unfolding lookup_compilation compile_unless
  compile_with r children w = compile_unless (lookup_compilation r w) r children w

  -- The first child that cannot be compiled ends the loop.
  unfoldable pub compile_rules : Rules → Action E F (Outcome (Unit {0}))
  unfolding compile_with
  compile_rules nil = pure (done tt)
  compile_rules (cons r kids rest) =
      compile_with r (compile_rules kids) >>= next (λ _. compile_rules rest)

  -- `compile`, and `ensureCompiledFor`, which calls it where nothing is found.
  unfoldable pub compile : Info → Rules → Action E F (Outcome (Unit {0}))
  unfolding compile_with compile_rules
  compile r kids = compile_with r (compile_rules kids)

  unfoldable pub found_expression : Info → Unit {0} → Action E F (Outcome ℤ)
  unfolding lookup_compilation
  found_expression r u w = (done (expression_ref_of (lookup_compilation r w)), w)

  unfoldable pub found_action : Info → Unit {0} → Action E F (Outcome ℤ)
  unfolding lookup_compilation
  found_action r u w = (done (action_ref_of (lookup_compilation r w)), w)

  unfoldable pub get_expression_ref : Info → Rules → Action E F (Outcome ℤ)
  unfolding compile
  get_expression_ref r kids = compile r kids >>= next (found_expression r)

  unfoldable pub get_action_ref : Info → Rules → Action E F (Outcome ℤ)
  unfolding compile
  get_action_ref r kids = compile r kids >>= next (found_action r)
