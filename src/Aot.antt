-- ===== src/Aot.antt =====
-- src/aot_compiler.cpp: AotCompiler and LuaExpressionCache, the caches of compiled expressions. The
-- compilation by the Lua state and `std::hash` are parameters, and for LuaExpressionCache each call
-- brings the function that compiles; a compilation that throws returns none. A disk cache is
-- the files of its directory by their hash; whether a file can be read or written is an argument.
pub mod Requests
pub mod Transparent
use fast_rules.Base.{
  ℕ, zero, suc, ◌+◌, List, [], ◌∷◌, ◌++◌, Bool, true, false, ◌&&◌, Option, none, some,
  if◌then◌else◌, leb, length, ℕ_eq, is_empty,
}
use fast_rules.Base.Dict.{Dict, lookup, insert}
use fast_rules.Base.Text.{Text, Text_eq}

pub record AotCompiledChunk : Type 0 where
  pub bytecode : Text
  pub compiled_at : ℕ
  pub hit_count : ℕ

pub record AotCompiler : Type 0 where
  pub cache : Dict Text AotCompiledChunk
  pub files : Dict ℕ Text
  pub use_disk_cache : Bool

abbrev pub new_chunk : Text → ℕ → AotCompiledChunk
new_chunk bytecode now = record { bytecode = bytecode; compiled_at = now; hit_count = 1 }

abbrev pub hit : AotCompiledChunk → AotCompiledChunk
hit c = record c { hit_count = c.hit_count + 1 }

module _ (hash : Text → ℕ) (compile : Text → Option Text) where
  -- Compile, keep the chunk, and write the file.
  unfoldable pub compile_new : Bool → ℕ → Text → AotCompiler → Option AotCompiledChunk × AotCompiler
  unfolding insert
  compile_new writable now expression a = elim (compile expression) [
    | none ↦ (none, a)
    | some bytecode ↦ (
      some (new_chunk bytecode now),
      record a {
        cache = insert expression (new_chunk bytecode now) a.cache;
        files =
            if a.use_disk_cache && writable
            then insert (hash expression) bytecode a.files
            else a.files;
      },
    )
  ]

  -- The file of an expression, where the disk cache is used and the file can be read.
  abbrev pub on_disk : Bool → Text → AotCompiler → Option Text
  on_disk readable expression a =
      if a.use_disk_cache && readable then lookup (hash expression) a.files else none

  unfoldable pub load_or_compile :
      Bool → Bool → ℕ → Text → AotCompiler → Option AotCompiledChunk × AotCompiler
  unfolding lookup insert compile_new
  load_or_compile readable writable now expression a = elim (on_disk readable expression a) [
    | none ↦ compile_new writable now expression a
    | some bytecode ↦ (
      some (new_chunk bytecode now),
      record a { cache = insert expression (new_chunk bytecode now) a.cache },
    )
  ]

  unfoldable pub get_or_compile :
      Bool → Bool → ℕ → Text → AotCompiler → Option AotCompiledChunk × AotCompiler
  unfolding lookup insert load_or_compile
  get_or_compile readable writable now expression a = elim (lookup expression a.cache) [
    | none ↦ load_or_compile readable writable now expression a
    | some chunk ↦ (some (hit chunk), record a { cache = insert expression (hit chunk) a.cache })
  ]

  -- A compilation that throws is passed over.
  unfoldable pub precompile : Bool → Bool → ℕ → List Text → AotCompiler → AotCompiler
  unfolding get_or_compile
  precompile readable writable now [] a = a
  precompile readable writable now (e ∷ es) a =
      precompile readable writable now es (get_or_compile readable writable now e a).1

-- Removing the files can fail as well.
unfoldable pub clear_cache : Bool → AotCompiler → AotCompiler
clear_cache removable a = record a {
  cache = [];
  files = if a.use_disk_cache && removable then [] else a.files;
}

-- `maxCacheSize_` is never changed.
pub record LuaExpressionCache : Type 0 where
  pub cache : Dict Text Text
  pub max_cache_size : ℕ

abbrev pub new_expression_cache : LuaExpressionCache
new_expression_cache = record { cache = []; max_cache_size = 1000 }

-- The entry that `begin()` names is any of an unordered map: that at the place `victim`.
abbrev pub remove_at : ℕ → Dict Text Text → Dict Text Text
remove_at n [] = []
remove_at zero (x ∷ xs) = xs
remove_at (suc n) (x ∷ []) = []
remove_at (suc n) (x ∷ y ∷ xs) = x ∷ remove_at n (y ∷ xs)

unfoldable pub make_space : ℕ → LuaExpressionCache → LuaExpressionCache
make_space victim c =
    if leb c.max_cache_size (length c.cache)
    then record c { cache = remove_at victim c.cache }
    else c

abbrev pub keep_compiled :
    Text → Option Text → LuaExpressionCache → Option Text × LuaExpressionCache
keep_compiled expression none c = (none, c)
keep_compiled expression (some compiled) c =
    (some compiled, record c { cache = insert expression compiled c.cache })

abbrev pub or_compile :
    ℕ
    → Text
    → (Text → Option Text)
    → LuaExpressionCache
    → Option Text
    → Option Text × LuaExpressionCache
or_compile victim expression compile c none =
    keep_compiled expression (compile expression) (make_space victim c)
or_compile victim expression compile c (some compiled) = (some compiled, c)

-- `LuaExpressionCache::getOrCompile`, whose caller passes the function that compiles.
unfoldable pub get_or_compile_expression :
    ℕ → Text → (Text → Option Text) → LuaExpressionCache → Option Text × LuaExpressionCache
unfolding make_space
get_or_compile_expression victim expression compile c =
    or_compile victim expression compile c (lookup expression c.cache)

unfoldable pub clear_expressions : LuaExpressionCache → LuaExpressionCache
clear_expressions c = record c { cache = [] }
