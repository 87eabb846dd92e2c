-- ===== src/Input.antt =====
-- LuaExpressionValidator of src/input_validator.cpp: the checks of an expression that comes from
-- outside, and its sanitising. The patterns and the allowed functions are unordered sets in the
-- source; a list here. A throwing check returns the message of its ValidationException.
pub mod Brackets
pub mod Parameter
use fast_rules.Base.{
  ℕ, zero, suc, ◌+◌, List, [], ◌∷◌, ◌++◌, Bool, true, false, not, ◌&&◌, ◌||◌, Option, none, some,
  if◌then◌else◌, ◌==◌, ltb, ℕ_eq, length, take, is_empty, any, all, keep,
}
use fast_rules.Base.Int.{pos}
use fast_rules.Base.Text.{Text, Text_eq, codes, to_string}
use fast_rules.Base.Search.{contains, is_space, to_lower_ascii}
use fast_rules.Expression.{boundary_loop}

pub record LuaExpressionValidator : Type 0 where
  pub allowed_functions : List Text
  pub dangerous_patterns : List Text
  pub max_length : ℕ

abbrev pub allowed_functions : List Text
allowed_functions =
    codes "math.abs"
    ∷ codes "math.acos"
    ∷ codes "math.asin"
    ∷ codes "math.atan"
    ∷ codes "math.atan2"
    ∷ codes "math.ceil"
    ∷ codes "math.cos"
    ∷ codes "math.cosh"
    ∷ codes "math.deg"
    ∷ codes "math.exp"
    ∷ codes "math.floor"
    ∷ codes "math.fmod"
    ∷ codes "math.frexp"
    ∷ codes "math.ldexp"
    ∷ codes "math.log"
    ∷ codes "math.log10"
    ∷ codes "math.max"
    ∷ codes "math.min"
    ∷ codes "math.modf"
    ∷ codes "math.pow"
    ∷ codes "math.rad"
    ∷ codes "math.random"
    ∷ codes "math.sin"
    ∷ codes "math.sinh"
    ∷ codes "math.sqrt"
    ∷ codes "math.tan"
    ∷ codes "math.tanh"
    ∷ codes "string.byte"
    ∷ codes "string.char"
    ∷ codes "string.find"
    ∷ codes "string.format"
    ∷ codes "string.gmatch"
    ∷ codes "string.gsub"
    ∷ codes "string.len"
    ∷ codes "string.lower"
    ∷ codes "string.match"
    ∷ codes "string.rep"
    ∷ codes "string.reverse"
    ∷ codes "string.sub"
    ∷ codes "string.upper"
    ∷ codes "table.concat"
    ∷ codes "table.insert"
    ∷ codes "table.remove"
    ∷ codes "table.sort"
    ∷ codes "tonumber"
    ∷ codes "tostring"
    ∷ codes "type"
    ∷ codes "next"
    ∷ codes "ipairs"
    ∷ codes "pairs"
    ∷ []

-- `"\\."` of the source is a backslash and a dot.
abbrev escaped_dot : Text → Text
escaped_dot s = s ++ 92 ∷ b'.' ∷ []

abbrev pub dangerous_patterns : List Text
dangerous_patterns =
    escaped_dot (codes "os")
    ∷ escaped_dot (codes "io")
    ∷ escaped_dot (codes "debug")
    ∷ codes "loadstring"
    ∷ codes "load"
    ∷ codes "loadfile"
    ∷ codes "dofile"
    ∷ codes "require"
    ∷ escaped_dot (codes "package")
    ∷ codes "module"
    ∷ codes "setmetatable"
    ∷ codes "getmetatable"
    ∷ codes "rawget"
    ∷ codes "rawset"
    ∷ codes "rawequal"
    ∷ codes "collectgarbage"
    ∷ codes "gcinfo"
    ∷ codes "newproxy"
    ∷ codes "getfenv"
    ∷ codes "setfenv"
    ∷ codes "system"
    ∷ codes "exec"
    ∷ codes "spawn"
    ∷ codes "popen"
    ∷ codes "import"
    ∷ codes "using"
    ∷ codes "include"
    ∷ codes "source"
    ∷ codes "eval"
    ∷ codes "execute"
    ∷ codes "run"
    ∷ codes "call"
    ∷ codes "_g"
    ∷ []

unfoldable pub new_expression_validator : ℕ → LuaExpressionValidator
new_expression_validator max_length = record {
  allowed_functions = allowed_functions;
  dangerous_patterns = dangerous_patterns;
  max_length = max_length;
}

unfoldable pub is_function_allowed : Text → LuaExpressionValidator → Bool
is_function_allowed f v = any (λ g. g == f) v.allowed_functions

unfoldable pub add_allowed_function : Text → LuaExpressionValidator → LuaExpressionValidator
unfolding is_function_allowed
add_allowed_function f v =
    if is_function_allowed f v then v else record v { allowed_functions = f ∷ v.allowed_functions }

unfoldable pub remove_allowed_function : Text → LuaExpressionValidator → LuaExpressionValidator
remove_allowed_function f v = record v {
  allowed_functions = keep (λ g. not (g == f)) v.allowed_functions;
}

unfoldable pub set_max_length : ℕ → LuaExpressionValidator → LuaExpressionValidator
set_max_length n v = record v { max_length = n }

-- The loop that replaces each escaped dot by a dot, and goes on behind it.
unfoldable pub unescape_dots : Text → Text
unescape_dots [] = []
unescape_dots (c ∷ []) = c ∷ []
unescape_dots (c ∷ d ∷ s) = elim ((c == 92) && (d == b'.')) [
  | true ↦ b'.' ∷ unescape_dots s
  | false ↦ c ∷ unescape_dots (d ∷ s)
]

-- A pattern with an escaped dot is looked for anywhere, a bare name as a whole identifier. The loop
-- over the occurrences of a name is that of the expression validator.
unfoldable pub matches_pattern : Text → Text → Bool
unfolding boundary_loop unescape_dots
matches_pattern lower_expr p =
    if contains p (92 ∷ b'.' ∷ [])
    then contains lower_expr (unescape_dots p)
    else boundary_loop (suc (length lower_expr)) lower_expr p 0

unfoldable pub check_dangerous_patterns : List Text → Text → Option Text
unfolding matches_pattern
check_dangerous_patterns [] lower_expr = none
check_dangerous_patterns (p ∷ ps) lower_expr =
    if matches_pattern lower_expr p
    then some (codes "Dangerous pattern detected: " ++ p)
    else check_dangerous_patterns ps lower_expr

pub record BracketCounts : Type 0 where
  pub paren : ℕ
  pub bracket : ℕ
  pub brace : ℕ

-- What a closing bracket does to its count: a count below zero is an error.
abbrev pub close_with : {A : Type 0} → ℕ → A → (ℕ → A) → A
close_with zero error go = error
close_with (suc n) error go = go n

abbrev pub check_counts : BracketCounts → Option Text
check_counts n =
    if not (n.paren == 0)
    then some (codes "Unbalanced parentheses")
    else if not (n.bracket == 0)
    then some (codes "Unbalanced brackets")
    else if not (n.brace == 0)
    then some (codes "Unbalanced braces")
    else none

-- The counts are `int`s of the source; they stay below the length of the expression.
unfoldable pub scan_brackets : Text → BracketCounts → Option Text
scan_brackets [] n = check_counts n
scan_brackets (c ∷ s) n =
    if c == b'('
    then scan_brackets s (record n { paren = n.paren + 1 })
    else if c == b')'
    then close_with n.paren (some (codes "Unbalanced parentheses"))
        (λ k. scan_brackets s (record n { paren = k }))
    else if c == b'['
    then scan_brackets s (record n { bracket = n.bracket + 1 })
    else if c == b']'
    then close_with n.bracket (some (codes "Unbalanced brackets"))
        (λ k. scan_brackets s (record n { bracket = k }))
    else if c == b'{'
    then scan_brackets s (record n { brace = n.brace + 1 })
    else if c == b'}'
    then close_with n.brace (some (codes "Unbalanced braces"))
        (λ k. scan_brackets s (record n { brace = k }))
    else scan_brackets s n

unfoldable pub validate_syntax : Text → Option Text
unfolding scan_brackets
validate_syntax e = scan_brackets e (record { paren = 0; bracket = 0; brace = 0 })

-- `validateFunctions` checks nothing, and is left out.
unfoldable pub validate : LuaExpressionValidator → Text → Option Text
unfolding check_dangerous_patterns validate_syntax to_lower_ascii
validate v e =
    if ltb v.max_length (length e)
    then some
        (codes "Expression too long (max " ++ to_string (pos v.max_length) ++ codes " characters)")
    else if is_empty e || all is_space e
    then some (codes "Expression cannot be empty or whitespace-only")
    else elim (check_dangerous_patterns v.dangerous_patterns (to_lower_ascii e)) [
      | none ↦ validate_syntax e
      | some message ↦ some message
    ]

-- `std::remove` of the zero bytes, and `resize` of a text that is too long.
abbrev pub without_zeros : Text → Text
without_zeros s = keep (λ c. not (c == 0)) s

abbrev pub resize : ℕ → Text → Text
resize n s = if ltb n (length s) then take n s else s

unfoldable pub sanitize : LuaExpressionValidator → Text → Text
sanitize v e = resize v.max_length (without_zeros e)
