-- ===== src/Sandbox/Code.antt =====
-- SandboxManager::validateCode of src/sandbox.cpp: the scan of a script before it runs. The regular
-- expression is a search, from left to right, for a name between two word boundaries.
use fast_rules.Base.{
  ℕ, ◌≡◌, inl, inr, List, [], ◌∷◌, ◌++◌, Bool, true, false, not, ◌&&◌, Option, none, some,
  if◌then◌else◌, find, length, take, drop, Option-cases, arith,
}
use fast_rules.Base.Search.{starts_with, contains, is_identifier_char, to_lower_ascii}
use fast_rules.Base.Text.{Text, codes}
use fast_rules.Input.{LuaExpressionValidator}
use fast_rules.Sandbox.{SandboxConfig}

abbrev dangerous_module_prefixes : List Text
dangerous_module_prefixes = codes "os." ∷ codes "io." ∷ codes "debug." ∷ codes "package." ∷ []

-- In the order of the alternatives.
abbrev pub dangerous_names : List Text
dangerous_names =
    codes "load"
    ∷ codes "loadstring"
    ∷ codes "loadfile"
    ∷ codes "dofile"
    ∷ codes "require"
    ∷ codes "module"
    ∷ codes "setmetatable"
    ∷ codes "getmetatable"
    ∷ codes "rawget"
    ∷ codes "rawset"
    ∷ codes "rawequal"
    ∷ codes "collectgarbage"
    ∷ codes "gcinfo"
    ∷ codes "newproxy"
    ∷ codes "system"
    ∷ codes "exec"
    ∷ codes "spawn"
    ∷ codes "popen"
    ∷ []

-- Whether the text goes on with a character of a word.
abbrev pub in_word : Text → Bool
in_word [] = false
in_word (c ∷ s) = is_identifier_char c

-- The name stands at the start of the text, in any case, and a word ends after it.
abbrev stands_at : Text → Text → Bool
stands_at s name = starts_with name (to_lower_ascii s) && not (in_word (drop (length name) s))

-- `match.str(1)`, for a list of names; `inside` says whether the character before is one of a word.
unfoldable pub search_names : List Text → Bool → Text → Option Text
search_names names inside [] = none
search_names names inside (c ∷ s) =
    let later = search_names names (is_identifier_char c) s in
    if inside then later else elim (find (stands_at (c ∷ s)) names) [
      | some name ↦ some (take (length name) (c ∷ s))
      | none ↦ later
    ]

-- The message of the SandboxViolationException, if one is thrown.
unfoldable pub validate_code : LuaExpressionValidator → SandboxConfig → Text → Option Text
unfolding fast_rules.Input.validate search_names to_lower_ascii
validate_code v config code =
    if not config.enabled then none else elim (fast_rules.Input.validate v code) [
      | some message ↦ some (codes "Code validation failed: " ++ message)
      | none ↦ elim (find (contains (to_lower_ascii code)) dangerous_module_prefixes) [
        | some prefix ↦ some (codes "Dangerous pattern detected: " ++ prefix)
        | none ↦ elim (search_names dangerous_names false code) [
          | some name ↦ some (codes "Dangerous pattern detected: " ++ name)
          | none ↦ none
        ]
      ]
    ]

-- Whether a text ends within a word, where the text before it does.
abbrev ends_inside : Bool → Text → Bool
ends_inside inside [] = inside
ends_inside inside (c ∷ s) = ends_inside (is_identifier_char c) s

search_names-tail :
    (names : List Text) (inside : Bool) (c : ℕ) (s : Text)
    → search_names names inside (c ∷ s) ≡ none
    → (search_names names (is_identifier_char c) s ≡ none)
      × (inside ≡ false → find (stands_at (c ∷ s)) names ≡ none)
unfolding search_names
search_names-tail names true c s h = (h, λ f. absurd (ground arith))
search_names-tail names false c s h = elim (Option-cases (find (stands_at (c ∷ s)) names)) [
  | inl e ↦ (rw e at h, λ f. e)
  | inr (name, e) ↦ absurd (ground (arith, rw e at h))
]

-- Where the search finds nothing, no name stands at any place where a word can start.
pub search_names-none :
    (names : List Text) (inside : Bool) (before : Text) (c : ℕ) (s : Text)
    → search_names names inside (before ++ c ∷ s) ≡ none
    → ends_inside inside before ≡ false
    → find (stands_at (c ∷ s)) names ≡ none
search_names-none names inside [] c s h f = (search_names-tail names inside c s h).1 f
search_names-none names inside (b ∷ before) c s h f =
    search_names-none names (is_identifier_char b) before c s
      (search_names-tail names inside b (before ++ c ∷ s) h).0 f
