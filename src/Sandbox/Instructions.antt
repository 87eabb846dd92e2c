-- ===== src/Sandbox/Instructions.antt =====
-- When the hook of the sandbox stops a script.
use fast_rules.Base.{
  ℕ, suc, ◌+◌, ◌*◌, ◌<◌, ◌≡◌, refl, true, false, Bool, List, [], ◌∷◌, not, ◌&&◌, ◌||◌, arith, ltb,
  nat_eq, Bool-cases, inl, inr, ap, subst, ◌∙◌,
}
use fast_rules.Sandbox.{SandboxStateData, sandbox_instruction_hook, set_instruction_limit}

-- The data after runs of the hook, the last run first; each is given as whether the chained hook
-- raised an error in it.
abbrev pub after_hooks : List Bool → SandboxStateData → SandboxStateData
after_hooks [] d = d
after_hooks (raised ∷ runs) d = (sandbox_instruction_hook raised (after_hooks runs d)).1

-- The runs in which the chained hook raised no error.
abbrev pub quiet : List Bool → ℕ
quiet [] = 0
quiet (true ∷ runs) = quiet runs
quiet (false ∷ runs) = suc (quiet runs)

record Counted (limit count : ℕ) (d : SandboxStateData) : Type 0 where
  limited : d.instruction_limit ≡ limit
  counted : 0 < limit → d.instruction_count ≡ count

hook-Counted :
    (limit count : ℕ) (d : SandboxStateData)
    → count + 1000 < 18446744073709551616
    → Counted limit count d
    → Counted limit (count + 1000) (sandbox_instruction_hook false d).1
unfolding sandbox_instruction_hook
hook-Counted limit count d fits h = elim (Bool-cases (nat_eq d.instruction_limit 0)) [
  | inl e ↦
      rw e (record {
        limited = h.limited;
        counted = λ pos. absurd (ground (arith, h.limited, e, pos));
      })
  | inr f ↦
      rw f (record { limited = h.limited; counted = λ pos. ground (arith, h.counted pos, fits) })
]

chained_raised : (d : SandboxStateData) → sandbox_instruction_hook true d ≡ (true, d)
unfolding sandbox_instruction_hook
chained_raised d = refl

after_hooks-Counted :
    (limit : ℕ) (runs : List Bool) (d : SandboxStateData)
    → quiet runs * 1000 < 18446744073709551616
    → Counted limit (quiet runs * 1000) (after_hooks runs (set_instruction_limit limit d))
unfolding set_instruction_limit sandbox_instruction_hook
after_hooks-Counted limit [] d fits = record { limited = refl; counted = λ pos. omega arith }
after_hooks-Counted limit (true ∷ runs) d fits = after_hooks-Counted limit runs d fits
after_hooks-Counted limit (false ∷ runs) d fits =
    let k = quiet runs in
    let e : k * 1000 + 1000 ≡ suc k * 1000 = omega arith in
    subst (λ n. Counted limit n (after_hooks (false ∷ runs) (set_instruction_limit limit d))) e
      (hook-Counted limit (k * 1000) (after_hooks runs (set_instruction_limit limit d))
        (omega arith) (after_hooks-Counted limit runs d (omega arith)))

raised-Counted :
    (limit count : ℕ) (d : SandboxStateData)
    → count + 1000 < 18446744073709551616
    → Counted limit count d
    → (sandbox_instruction_hook false d).0 ≡ (not (nat_eq limit 0) && ltb limit (count + 1000))
unfolding sandbox_instruction_hook
raised-Counted limit count d fits h = ground (arith, h.limited, h.counted, fits)

-- After the instruction limit was set and the hook ran any number of times, in each of which the
-- chained hook raised an error or did not: the next run raises an error exactly if the chained hook
-- raises one in it, or the limit is not 0 and below (k + 1) * 1000, where k of the runs before had a
-- chained hook that raised none and (k + 1) * 1000 is below 2 ^ 64.
pub after_hooks-raises :
    (limit : ℕ) (runs : List Bool) (raised : Bool) (d : SandboxStateData)
    → suc (quiet runs) * 1000 < 18446744073709551616
    → (sandbox_instruction_hook raised (after_hooks runs (set_instruction_limit limit d))).0
      ≡ (raised || (not (nat_eq limit 0) && ltb limit (suc (quiet runs) * 1000)))
after_hooks-raises limit runs true d fits =
    ap (λ r. r.0) (chained_raised (after_hooks runs (set_instruction_limit limit d)))
after_hooks-raises limit runs false d fits =
    let k = quiet runs in
    let e : k * 1000 + 1000 ≡ suc k * 1000 = omega arith in
    raised-Counted limit (k * 1000) (after_hooks runs (set_instruction_limit limit d)) (omega arith)
      (after_hooks-Counted limit runs d (omega arith))
    ∙ ap (λ n. not (nat_eq limit 0) && ltb limit n) e
