-- ===== src/Aot/Transparent.antt =====
-- AotCompiler returns what a compilation returns.
use fast_rules.Base.{
  ℕ, ◌≡◌, refl, sym, ◌∙◌, inl, inr, Bool, true, false, ◌&&◌, Option, none, some, arith,
  if◌then◌else◌, ℕ_eq, All, Option-cases,
}
use fast_rules.Base.Dict.{Dict, lookup, insert, All-insert, All-lookup}
use fast_rules.Base.Text.{Text, Text_eq}
use fast_rules.Aot.{
  AotCompiledChunk, AotCompiler, new_chunk, hit, compile_new, on_disk, load_or_compile,
  get_or_compile,
}

-- The bytecode of a chunk that was returned.
abbrev pub bytecode_of : Option AotCompiledChunk → Option Text
bytecode_of none = none
bytecode_of (some c) = some c.bytecode

module _ (hash : Text → ℕ) (compile : Text → Option Text) where
  -- The chunks in memory are what the compilations of their expressions return, and a file is what
  -- the compilation of any expression with its hash returns.
  abbrev pub IsSoundChunk : Text × AotCompiledChunk → Type 0
  IsSoundChunk entry = compile entry.0 ≡ some entry.1.bytecode

  abbrev pub IsSoundFile : ℕ × Text → Type 0
  IsSoundFile file = (e : Text) → hash e ≡ file.0 → compile e ≡ some file.1

  pub record IsSoundCompiler (a : AotCompiler) : Type 0 where
    pub chunks : All IsSoundChunk a.cache
    pub stored : All IsSoundFile a.files

  -- Expressions with one hash compile to one bytecode.
  abbrev pub IsCollisionFree : Type 0
  IsCollisionFree = (d e : Text) → hash d ≡ hash e → compile d ≡ compile e

  abbrev Returns : Text → Option AotCompiledChunk × AotCompiler → Type 0
  Returns e r = (bytecode_of r.0 ≡ compile e) × IsSoundCompiler r.1

  with_file :
      (t : Bool) (e bytecode : Text) (files : Dict ℕ Text)
      → IsCollisionFree
      → compile e ≡ some bytecode
      → All IsSoundFile files
      → All IsSoundFile (if t then insert (hash e) bytecode files else files)
  with_file true e bytecode files free c h =
      All-insert IsSoundFile (hash e) bytecode files h (λ d same. free d e same ∙ c)
  with_file false e bytecode files free c h = h

  compile_new-Returns :
      (writable : Bool) (now : ℕ) (e : Text) (a : AotCompiler)
      → IsCollisionFree
      → IsSoundCompiler a
      → Returns e (compile_new hash compile writable now e a)
  unfolding compile_new
  compile_new-Returns writable now e a free h = elim (Option-cases (compile e)) [
    | inl c ↦ rw (compile_new, c) (refl, h)
    | inr (b, c) ↦
        rw (compile_new, c)
          (
            refl,
            record {
              chunks = All-insert IsSoundChunk e (new_chunk b now) a.cache h.chunks c;
              stored = with_file (a.use_disk_cache && writable) e b a.files free c h.stored;
            },
          )
  ]

  on_disk_sound :
      (t : Bool) (e b : Text) (files : Dict ℕ Text)
      → All IsSoundFile files
      → (if t then lookup (hash e) files else none) ≡ some b
      → compile e ≡ some b
  on_disk_sound true e b files h found = All-lookup IsSoundFile (hash e) b files h found e refl
  on_disk_sound false e b files h found = absurd (ground arith)

  load_or_compile-Returns :
      (readable writable : Bool) (now : ℕ) (e : Text) (a : AotCompiler)
      → IsCollisionFree
      → IsSoundCompiler a
      → Returns e (load_or_compile hash compile readable writable now e a)
  unfolding load_or_compile
  load_or_compile-Returns readable writable now e a free h =
      elim (Option-cases (on_disk hash compile readable e a)) [
        | inl absent ↦ rw (load_or_compile, absent) (compile_new-Returns writable now e a free h)
        | inr (b, found) ↦
            let c = on_disk_sound (a.use_disk_cache && readable) e b a.files h.stored found in
            rw (load_or_compile, found)
              (
                sym c,
                record {
                  chunks = All-insert IsSoundChunk e (new_chunk b now) a.cache h.chunks c;
                  stored = h.stored;
                },
              )
      ]

  -- If expressions with one hash compile to one bytecode: while the chunks in memory and the files
  -- are sound, a request returns the bytecode that the compilation returns, or throws where that
  -- throws, and leaves the chunks and files sound, whether or not files can be read and written.
  pub get_or_compile-Returns :
      (readable writable : Bool) (now : ℕ) (e : Text) (a : AotCompiler)
      → IsCollisionFree
      → IsSoundCompiler a
      → (bytecode_of (get_or_compile hash compile readable writable now e a).0 ≡ compile e)
        × IsSoundCompiler (get_or_compile hash compile readable writable now e a).1
  unfolding get_or_compile
  get_or_compile-Returns readable writable now e a free h = elim (Option-cases (lookup e a.cache)) [
    | inl absent ↦
        rw (get_or_compile, absent) (load_or_compile-Returns readable writable now e a free h)
    | inr (c, found) ↦
        let known = All-lookup IsSoundChunk e c a.cache h.chunks found in
        rw (get_or_compile, found)
          (
            sym known,
            record {
              chunks = All-insert IsSoundChunk e (hit c) a.cache h.chunks known;
              stored = h.stored;
            },
          )
  ]
