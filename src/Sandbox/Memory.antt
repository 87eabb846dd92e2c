-- ===== src/Sandbox/Memory.antt =====
-- The memory that the allocator of the sandbox counts and grants.
use fast_rules.Base.{
  not, ◌&&◌, nat_eq, ltb, inl, inr, Bool-cases, ℕ, ◌+◌, ◌≤◌, ◌<◌, ◌≡◌, refl, List, [], ◌∷◌, ◌++◌,
  Bool, true, false, arith, if◌then◌else◌,
}
use fast_rules.Sandbox.{
  SandboxStateData, new_state, projected, sandbox_limit_alloc, set_memory_limit,
}

-- The sizes of the blocks that the Lua state holds.
abbrev pub total : List ℕ → ℕ
total [] = 0
total (n ∷ ns) = n + total ns

-- The blocks after a call for `n` bytes: the new block, if it was granted.
abbrev pub with_block : Bool → ℕ → List ℕ → List ℕ → List ℕ
with_block true n blocks old = n ∷ blocks
with_block false n blocks old = old

-- The calls of the Lua state: a new block, another size for a block, and freeing one.
pub data Step : SandboxStateData → List ℕ → SandboxStateData → List ℕ → Type 0 where
  allocates :
      (d : SandboxStateData) (blocks : List ℕ) (available : Bool) (kind n : ℕ)
      → 0 < n
      → total blocks + n < 18446744073709551616
      → Step d blocks
          (sandbox_limit_alloc available true kind n d).1
          (with_block (sandbox_limit_alloc available true kind n d).0 n blocks blocks)
  resizes :
      (d : SandboxStateData) (front back : List ℕ) (available : Bool) (m n : ℕ)
      → 0 < n
      → total (front ++ back) + n < 18446744073709551616
      → Step d (front ++ m ∷ back) (sandbox_limit_alloc available false m n d).1 (
          with_block
            (sandbox_limit_alloc available false m n d).0
            n
            (front ++ back)
            (front ++ m ∷ back))
  frees :
      (d : SandboxStateData) (front back : List ℕ) (available : Bool) (m : ℕ)
      → Step d (front ++ m ∷ back) (sandbox_limit_alloc available false m 0 d).1 (front ++ back)

-- `older` are the blocks that the Lua state holds when the allocator is installed. They are resized
-- and freed through the allocator like the others.
pub data Reach (older : List ℕ) (d : SandboxStateData) : SandboxStateData → List ℕ → Type 0 where
  begin : Reach older d d older
  next :
      {e f : SandboxStateData} {bs cs : List ℕ}
      → Reach older d e bs
      → Step e bs f cs
      → Reach older d f cs

-- The counter is within a limit that is not 0, and differs from the size of all blocks together by
-- the size of the older blocks at most, which it does not count.
pub record IsCapped (limit : ℕ) (older : List ℕ) (d : SandboxStateData) (blocks : List ℕ)
    : Type 0 where
  pub limited : d.mem_limit ≡ limit
  pub counted : d.mem_used ≤ total blocks
  pub uncounted : total blocks ≤ d.mem_used + total older
  pub capped : 0 < limit → d.mem_used ≤ limit

total-append : (xs ys : List ℕ) → total (xs ++ ys) ≡ total xs + total ys
total-append [] ys = omega arith
total-append (x ∷ xs) ys = omega (arith, total-append xs ys)

-- What is projected lies between the bytes that the blocks take afterwards, less the older blocks, and
-- those bytes.
record IsProjected (older : ℕ) (rest n p : ℕ) : Type 0 where
  below : p ≤ n + rest
  above : n + rest ≤ p + older

projected-IsProjected :
    (d : SandboxStateData) (older old rest freed n : ℕ)
    → d.mem_used ≤ old
    → old ≤ d.mem_used + older
    → old ≡ rest + freed
    → rest + n < 18446744073709551616
    → IsProjected older rest n (projected d freed n)
projected-IsProjected d older old rest freed n used uncounted parts fits = record {
  below = ground arith;
  above = ground arith;
}

granted-IsCapped :
    (limit : ℕ) (older : List ℕ) (d : SandboxStateData) (rest : List ℕ) (p n : ℕ)
    → (not (nat_eq d.mem_limit 0) && ltb d.mem_limit p) ≡ false
    → IsProjected (total older) (total rest) n p
    → d.mem_limit ≡ limit
    → IsCapped limit older (record d { mem_used = p }) (n ∷ rest)
granted-IsCapped limit older d rest p n within e limited = record {
  limited = limited;
  counted = e.below;
  uncounted = e.above;
  capped = λ some_limit. ground (arith, limited, within);
}

-- A call for `n` bytes that frees `freed` bytes if it is granted, leaving the blocks `rest`.
call-IsCapped :
    (limit : ℕ) (older : List ℕ) (d : SandboxStateData) (old rest : List ℕ)
    (available is_null : Bool) (osize n : ℕ)
    → 0 < n
    → total rest + n < 18446744073709551616
    → total old ≡ total rest + (if is_null then 0 else osize)
    → IsCapped limit older d old
    → IsCapped limit older
        (sandbox_limit_alloc available is_null osize n d).1
        (with_block (sandbox_limit_alloc available is_null osize n d).0 n rest old)
unfolding sandbox_limit_alloc
call-IsCapped limit older d old rest available is_null osize n pos fits parts h =
    let freed = if is_null then 0 else osize in
    let p = projected d freed n in
    let asked : nat_eq n 0 ≡ false = ground arith in
    let e =
      projected-IsProjected d (total older) (total old) (total rest) freed n h.counted h.uncounted
        parts fits in
    elim (Bool-cases (not (nat_eq d.mem_limit 0) && ltb d.mem_limit p)) [
      | inl over ↦ rw (asked, over) h
      | inr within ↦ elim (Bool-cases available) [
        | inl there ↦
            rw (asked, within, there) (granted-IsCapped limit older d rest p n within e h.limited)
        | inr not_there ↦ rw (asked, within, not_there) h
      ]
    ]

Step-IsCapped :
    (limit : ℕ) (older : List ℕ) {d e : SandboxStateData} {bs cs : List ℕ}
    → Step d bs e cs
    → IsCapped limit older d bs
    → IsCapped limit older e cs
unfolding sandbox_limit_alloc
Step-IsCapped limit older (allocates d blocks available kind n pos fits) h =
    call-IsCapped limit older d blocks blocks available true kind n pos fits (omega arith) h
Step-IsCapped limit older (resizes d front back available m n pos fits) h =
    call-IsCapped limit older d (front ++ m ∷ back) (front ++ back) available false m n pos fits
      (omega (arith, total-append front back, total-append front (m ∷ back))) h
Step-IsCapped limit older (frees d front back available m) h = record {
  limited = h.limited;
  counted = ground (arith, h.counted, total-append front back, total-append front (m ∷ back));
  uncounted = ground (arith, h.uncounted, total-append front back, total-append front (m ∷ back));
  capped = λ some_limit. ground (arith, h.capped some_limit);
}

-- From new limit data with a memory limit on, installed on a Lua state that holds any blocks,
-- whatever blocks it then allocates, resizes and frees, those it held before included, all its blocks
-- together being below 2 ^ 64 bytes: the counter is within the limit, unless the limit is 0; it is at
-- most the size of all blocks together, and they are larger by the size of the blocks held before at
-- most, so that it is their size where there were none.
pub Reach-IsCapped :
    (limit : ℕ) (older : List ℕ) {d : SandboxStateData} {blocks : List ℕ}
    → Reach older (set_memory_limit limit new_state) d blocks
    → IsCapped limit older d blocks
unfolding set_memory_limit
Reach-IsCapped limit older begin = record {
  limited = refl;
  counted = omega arith;
  uncounted = omega arith;
  capped = λ some_limit. omega arith;
}
Reach-IsCapped limit older (next r st) = Step-IsCapped limit older st (Reach-IsCapped limit older r)
