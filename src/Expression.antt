-- ===== src/Expression.antt =====
-- src/expression_validator.cpp and include/fastrules/expression_validator.hpp: the static checks of
-- a Lua expression. Strings are lists of bytes.
pub mod Boundary
pub mod Verdict
use fast_rules.Base.{
  ℕ, zero, suc, ◌+◌, ◌-◌, List, [], ◌∷◌, ◌++◌, Bool, true, false, not, ◌&&◌, ◌||◌, Option, none,
  some, if◌then◌else◌, ◌==◌, ltb, leb, nat_eq, ℕ_eq, length, get_elem?, is_empty, map,
}
use fast_rules.Base.Text.{Text, Text_eq, codes}
use fast_rules.Base.Search.{find_from, contains, is_identifier_char, to_lower_ascii, search_from}

-- No identifier character stands at the index.
abbrev pub is_boundary : Option ℕ → Bool
unfolding is_identifier_char
is_boundary none = true
is_boundary (some c) = not (is_identifier_char c)

-- `pos == 0 || !isIdentifierChar(s[pos - 1])`.
abbrev pub start_ok : Text → ℕ → Bool
start_ok s zero = true
start_ok s (suc i) = is_boundary (get_elem? s i)

-- `after >= s.size() || !isIdentifierChar(s[after])`.
abbrev pub end_ok : Text → ℕ → Bool
end_ok s after = is_boundary (get_elem? s after)

-- The loop over the occurrences of `p` from `pos` on. Each round moves `pos` on, so fuel above the
-- length of the text is enough.
unfoldable pub boundary_loop : ℕ → Text → Text → ℕ → Bool
unfolding search_from is_identifier_char
boundary_loop zero s p pos = false
boundary_loop (suc fuel) s p pos = elim (find_from s p pos) [
  | none ↦ false
  | some i ↦ elim (start_ok s i && end_ok s (i + length p)) [
    | true ↦ true
    | false ↦ boundary_loop fuel s p (suc i)
  ]
]

unfoldable pub contains_at_identifier_boundary : Text → Text → Bool
unfolding boundary_loop
contains_at_identifier_boundary s p =
    if is_empty p then false else boundary_loop (suc (length s)) s p 0

pub record ValidationResult : Type 0 where
  pub valid : Bool
  pub errors : List Text
  pub warnings : List Text

abbrev pub dangerous_patterns : List (Text × Text)
dangerous_patterns =
    (codes "os.execute", codes "os.execute() - shell command execution")
    ∷ (codes "os.exit", codes "os.exit() - process termination")
    ∷ (codes "io.open", codes "io.open() - file system access")
    ∷ (codes "io.popen", codes "io.popen() - shell command execution")
    ∷ (codes "loadfile", codes "loadfile() - arbitrary code loading")
    ∷ (codes "dofile", codes "dofile() - arbitrary code execution")
    ∷ (codes "require", codes "require() - module loading")
    ∷ (codes "loadstring", codes "loadstring() - arbitrary code loading")
    ∷ (codes "load", codes "load() - arbitrary code loading")
    ∷ (codes "debug.getregistry", codes "debug.getregistry() - internal access")
    ∷ (codes "debug.getlocal", codes "debug.getlocal() - stack inspection")
    ∷ (codes "debug.setupvalue", codes "debug.setupvalue() - upvalue manipulation")
    ∷ (codes "collectgarbage", codes "collectgarbage() - GC manipulation")
    ∷ (codes "rawset", codes "rawset() - bypass metatables")
    ∷ (codes "rawget", codes "rawget() - bypass metatables")
    ∷ (codes "setmetatable", codes "setmetatable() - metatable manipulation")
    ∷ (codes "getmetatable", codes "getmetatable() - metatable access")
    ∷ (codes "rawequal", codes "rawequal() - bypass metatables")
    ∷ (codes "rawlen", codes "rawlen() - bypass metatables")
    ∷ (codes "package", codes "package - module system access")
    ∷ (codes "module", codes "module() - module creation")
    ∷ (codes "newproxy", codes "newproxy() - userdata creation")
    ∷ []

-- `getDangerousPatterns`; shut, since the table is long.
unfoldable pub get_dangerous_patterns : List (Text × Text)
get_dangerous_patterns = dangerous_patterns

-- The descriptions of the patterns that the lowered text holds, in the order of the table.
unfoldable pub find_among : List (Text × Text) → Text → List Text
unfolding contains_at_identifier_boundary
find_among [] s = []
find_among ((p, d) ∷ ps) s =
    if contains_at_identifier_boundary s p then d ∷ find_among ps s else find_among ps s

unfoldable pub find_dangerous_patterns : Text → List Text
unfolding find_among to_lower_ascii get_dangerous_patterns
find_dangerous_patterns e = find_among get_dangerous_patterns (to_lower_ascii e)

unfoldable pub contains_dangerous_patterns : Text → Bool
unfolding find_dangerous_patterns
contains_dangerous_patterns e = not (is_empty (find_dangerous_patterns e))

abbrev pub count_char : ℕ → Text → ℕ
count_char k [] = 0
count_char k (c ∷ s) = if c == k then suc (count_char k s) else count_char k s

abbrev pub is_backslash : Option ℕ → Bool
is_backslash none = false
is_backslash (some c) = c == 92

-- The quote scan. `open` is the delimiter of the string that the scan is in; `before` is the
-- character at the previous index.
unfoldable pub in_string : Option ℕ → Option ℕ → Text → Bool
in_string none before [] = false
in_string (some d) before [] = true
in_string none before (c ∷ s) = in_string (if c == b'"' || c == 39 then some c else none) (some c) s
in_string (some d) before (c ∷ s) =
    in_string (if c == d && not (is_backslash before) then none else some d) (some c) s

abbrev error_if : Bool → Text → List Text
error_if b msg = if b then msg ∷ [] else []

abbrev pub bracket_errors : Text → List Text
bracket_errors e =
    error_if (not (count_char b'(' e == count_char b')' e)) (codes "Mismatched parentheses")
    ++ error_if (not (count_char b'[' e == count_char b']' e)) (codes "Mismatched brackets")
    ++ error_if (not (count_char b'{' e == count_char b'}' e)) (codes "Mismatched braces")

unfoldable pub errors_of : Text → List Text
unfolding find_dangerous_patterns in_string
errors_of e =
    map (◌++◌ (codes "Dangerous pattern detected: ")) (find_dangerous_patterns e)
    ++ bracket_errors e
    ++ error_if (in_string none none e) (codes "Unclosed string literal")

unfoldable pub warnings_of : Text → List Text
unfolding search_from
warnings_of e =
    error_if (contains e (codes "while true"))
      (codes "Expression contains 'while true' - potential infinite loop")
    ++ error_if (contains e (codes "for ") && contains e (codes "do"))
        (codes "Expression contains loop - ensure timeout is set")

-- The source clears `valid` at each error that it adds.
unfoldable pub validate : Text → ValidationResult
unfolding errors_of warnings_of
validate e =
    if is_empty e
    then record { valid = true; errors = []; warnings = [] }
    else record { valid = is_empty (errors_of e); errors = errors_of e; warnings = warnings_of e }

unfoldable pub is_valid_lua_syntax : Text → Bool
unfolding validate
is_valid_lua_syntax e = if is_empty e then true else (validate e).valid
