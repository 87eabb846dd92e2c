-- ===== src/Aot/Requests.antt =====
-- src/aot_compiler.cpp: the calls of LuaExpressionCache, and what their answers are.
pub mod Served
use fast_rules.Base.{
  ℕ, zero, suc, ◌+◌, ◌≤◌, ◌<◌, ◌≡◌, refl, sym, ap, ◌∙◌, ◌⊎◌, ◌==◌, inl, inr, List, [], ◌∷◌, Bool,
  true, false, Option, none, some, arith, if◌then◌else◌, leb, length, All, Bool-cases, Option-cases,
}
use fast_rules.Base.Dict.{
  Dict, lookup, insert, All-insert, All-lookup, length-insert-le, lookup-insert_self,
}
use fast_rules.Base.Text.{Text, Text_eq}
use fast_rules.Aot.{
  LuaExpressionCache, new_expression_cache, remove_at, make_space, keep_compiled,
  get_or_compile_expression,
}

-- A call of getOrCompile, with the place of the entry that it evicts if it evicts one, and the
-- function that its caller passes.
pub record Request : Type 0 where
  pub victim : ℕ
  pub expression : Text
  pub compile : Text → Option Text

abbrev pub ask : Request → LuaExpressionCache → Option Text × LuaExpressionCache
ask r c = get_or_compile_expression r.victim r.expression r.compile c

abbrev pub after_requests : LuaExpressionCache → List Request → LuaExpressionCache
after_requests c [] = c
after_requests c (r ∷ rs) = after_requests (ask r c).1 rs

-- The function of a request for the expression returned the text for it.
pub data Returned (expression compiled : Text) : List Request → Type 0 where
  here :
      (r : Request) (rs : List Request)
      → r.expression ≡ expression
      → r.compile expression ≡ some compiled
      → Returned expression compiled (r ∷ rs)
  there :
      (r : Request) (rs : List Request)
      → Returned expression compiled rs
      → Returned expression compiled (r ∷ rs)

-- The answer is what the request's own function returns, or a text that the function of an earlier
-- request for the expression returned.
abbrev pub IsAnswer : List Request → Request → Option Text → Type 0
IsAnswer earlier r answer =
    (answer ≡ r.compile r.expression)
    ⊎ ((compiled : Text) × (answer ≡ some compiled) × Returned r.expression compiled earlier)

abbrev pub AreAnswered : List Request → LuaExpressionCache → List Request → Type 0
AreAnswered earlier c [] = Unit {0}
AreAnswered earlier c (r ∷ rs) =
    IsAnswer earlier r (ask r c).0 × AreAnswered (r ∷ earlier) (ask r c).1 rs

-- The first text, or where there is none the second.
abbrev pub otherwise : Option Text → Option Text → Option Text
otherwise none other = other
otherwise (some compiled) other = some compiled

-- The request, and then one for the same expression.
abbrev pub repeated_request : Request → ℕ → (Text → Option Text) → LuaExpressionCache → Option Text
repeated_request r victim compile c =
    (get_or_compile_expression victim r.expression compile (ask r c).1).0
