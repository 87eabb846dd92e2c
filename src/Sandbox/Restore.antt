-- ===== src/Sandbox/Restore.antt =====
-- Removing a sandbox puts back what applying it replaced.
use fast_rules.Base.{
  ℕ, ◌≡◌, refl, sym, ◌∙◌, List, [], ◌∷◌, true, false, Option, none, some, arith, ◌==◌, ltb, ℕ_eq,
  ◌<◌, Option-cases, Bool-cases, inl, inr, eq_refl, subst, pick_true,
}
use fast_rules.Base.Dict.{lookup, insert, erase, lookup-insert_self, lookup-erase}
use fast_rules.Base.Text.{Text}
use fast_rules.Sandbox.{SandboxConfig}
use fast_rules.Sandbox.Manager.{
  Hook, other_hook, sandbox_hook, LuaApi, Sandboxed, SandboxManager, is_sandboxed, chained_of,
  hook_back, clear_globals, limited_data, install, restricted, sandbox_new, apply_sandbox,
  restore_allocator, remove_sandbox, enter_guard, leave_guard,
}

-- A hook that the sandbox can put back: none, or another one that counts.
abbrev pub IsRestorable : Option Hook → Type 0
IsRestorable none = Unit
IsRestorable (some (other_hook function mask count)) = 0 < count
IsRestorable (some (sandbox_hook mask count)) = ⊥

hook_back-chained_of : (h : Option Hook) → IsRestorable h → hook_back (chained_of h) ≡ h
hook_back-chained_of none r = refl
hook_back-chained_of (some (other_hook function mask count)) r =
    let e : ltb 0 count ≡ true = ground arith in rw e refl
hook_back-chained_of (some (sandbox_hook mask count)) r = absurd r

module _ {S : Type 0} (api : LuaApi S) where
  hook-clear_globals : (xs : List Text) (s : S) → api.hook (clear_globals api xs s) ≡ api.hook s
  unfolding clear_globals
  hook-clear_globals [] s = refl
  hook-clear_globals (x ∷ xs) s =
      hook-clear_globals xs (api.clear_global x s) ∙ api.hook-clear_global x s

  allocator-clear_globals :
      (xs : List Text) (s : S) → api.allocator (clear_globals api xs s) ≡ api.allocator s
  unfolding clear_globals
  allocator-clear_globals [] s = refl
  allocator-clear_globals (x ∷ xs) s =
      allocator-clear_globals xs (api.clear_global x s) ∙ api.allocator-clear_global x s

  -- What the removal of the entry `d` does to a state.
  abbrev taken_back : Sandboxed → S → S
  taken_back d s =
      restore_allocator api d.orig_alloc
        (api.set_registered none (api.set_hook (hook_back d.chained) s))

  remove_sandbox-found :
      (lua : ℕ) (m : SandboxManager) (s : S) (d : Sandboxed)
      → lookup lua m.sandboxed_states ≡ some d
      → remove_sandbox api lua (m, s)
        ≡ (record m { sandboxed_states = erase lua m.sandboxed_states }, taken_back d s)
  unfolding remove_sandbox
  remove_sandbox-found lua m s d e = rw (remove_sandbox, e) refl

  hook-restricted : (c : SandboxConfig) (s : S) → api.hook (restricted api c s) ≡ api.hook s
  hook-restricted c s =
      hook-clear_globals c.restricted_modules (clear_globals api c.restricted_functions s)
      ∙ hook-clear_globals c.restricted_functions s

  allocator-restricted :
      (c : SandboxConfig) (s : S) → api.allocator (restricted api c s) ≡ api.allocator s
  allocator-restricted c s =
      allocator-clear_globals c.restricted_modules (clear_globals api c.restricted_functions s)
      ∙ allocator-clear_globals c.restricted_functions s

  hook-taken_back :
      (c : SandboxConfig) (address : ℕ) (t u : S)
      → IsRestorable (api.hook t)
      → api.hook (taken_back (limited_data api c address t) u) ≡ api.hook t
  hook-taken_back c address t u r =
      api.hook-set_allocator (api.allocator t) _
      ∙ api.hook-set_registered none _
      ∙ api.hook-set_hook (hook_back (chained_of (api.hook t))) u
      ∙ hook_back-chained_of (api.hook t) r

  registered-taken_back :
      (c : SandboxConfig) (address : ℕ) (t u : S)
      → api.registered (taken_back (limited_data api c address t) u) ≡ none
  registered-taken_back c address t u =
      api.registered-set_allocator (api.allocator t) _ ∙ api.registered-set_registered none _

  is_sandboxed-erase :
      (lua : ℕ) (m : SandboxManager)
      → is_sandboxed lua (record m { sandboxed_states = erase lua m.sandboxed_states }) ≡ false
  unfolding is_sandboxed
  is_sandboxed-erase lua m =
      let gone : lookup lua (erase lua m.sandboxed_states) ≡ none =
        lookup-erase lua lua m.sandboxed_states ∙ pick_true (lua == lua) none _ (eq_refl lua) in
      rw (is_sandboxed, gone) refl

  abbrev IsUndone : ℕ → S → SandboxManager × S → Type 0
  IsUndone lua s r =
      (is_sandboxed lua r.0 ≡ false)
      × (api.hook r.1 ≡ api.hook s)
      × (api.allocator r.1 ≡ api.allocator s)
      × (api.registered r.1 ≡ none)

  remove_sandbox-sandbox_new :
      (lua address : ℕ) (m : SandboxManager) (s : S)
      → IsRestorable (api.hook s)
      → let r = remove_sandbox api lua (sandbox_new api lua address (m, s)) in
        (is_sandboxed lua r.0 ≡ false)
        × (api.hook r.1 ≡ api.hook s)
        × (api.allocator r.1 ≡ api.allocator s)
        × (api.registered r.1 ≡ none)
  unfolding sandbox_new
  remove_sandbox-sandbox_new lua address m s restorable =
      let c = m.config in
      let t = restricted api c s in
      let d = limited_data api c address t in
      let u = install api c address t in
      let with_entry : SandboxManager = record m {
        sandboxed_states = insert lua d m.sandboxed_states;
      } in
      let same = hook-restricted c s in
      let removed =
        remove_sandbox-found lua with_entry u d (lookup-insert_self lua d m.sandboxed_states) in
      subst (IsUndone lua s) (sym removed) (
        is_sandboxed-erase lua with_entry,
        hook-taken_back c address t u (subst IsRestorable (sym same) restorable) ∙ same,
        api.allocator-set_allocator (api.allocator t) _ ∙ allocator-restricted c s,
        registered-taken_back c address t u,
      )

  -- A manager and a state that look as before to the state's hook, allocator and sandboxing.
  abbrev IsKept : ℕ → SandboxManager → S → SandboxManager × S → Type 0
  IsKept lua m s r =
      (api.hook r.1 ≡ api.hook s)
      × (api.allocator r.1 ≡ api.allocator s)
      × (is_sandboxed lua r.0 ≡ is_sandboxed lua m)

  not_sandboxed :
      (lua : ℕ) (m : SandboxManager)
      → is_sandboxed lua m ≡ false
      → lookup lua m.sandboxed_states ≡ none
  unfolding is_sandboxed
  not_sandboxed lua m f = elim (Option-cases (lookup lua m.sandboxed_states)) [
    | inl e ↦ e
    | inr (d, e) ↦ absurd (cc (rw (is_sandboxed, e) at f))
  ]

  remove_sandbox-missing :
      (lua : ℕ) (m : SandboxManager) (s : S)
      → lookup lua m.sandboxed_states ≡ none
      → remove_sandbox api lua (m, s) ≡ (m, s)
  unfolding remove_sandbox
  remove_sandbox-missing lua m s e = rw (remove_sandbox, e) refl

  apply_sandbox-disabled :
      (lua address : ℕ) (m : SandboxManager) (s : S)
      → m.config.enabled ≡ false
      → apply_sandbox api lua address (m, s) ≡ (m, s)
  unfolding apply_sandbox
  apply_sandbox-disabled lua address m s e = rw (apply_sandbox, e) refl

  apply_sandbox-missing :
      (lua address : ℕ) (m : SandboxManager) (s : S)
      → m.config.enabled ≡ true
      → lookup lua m.sandboxed_states ≡ none
      → apply_sandbox api lua address (m, s)
        ≡ sandbox_new api lua address
            (record m { sandboxed_states = erase lua m.sandboxed_states }, s)
  unfolding apply_sandbox
  apply_sandbox-missing lua address m s on e = rw (apply_sandbox, on, e) refl

  guarded :
      (lua address : ℕ) (m : SandboxManager) (s : S)
      → is_sandboxed lua m ≡ false
      → IsRestorable (api.hook s)
      → IsKept lua m s (remove_sandbox api lua (apply_sandbox api lua address (m, s)))
  guarded lua address m s f restorable =
      let missing = not_sandboxed lua m f in
      elim (Bool-cases m.config.enabled) [
        | inl on ↦
            let erased : SandboxManager = record m {
              sandboxed_states = erase lua m.sandboxed_states;
            } in
            let undone = remove_sandbox-sandbox_new lua address erased s restorable in
            subst (λ x. IsKept lua m s (remove_sandbox api lua x))
              (sym (apply_sandbox-missing lua address m s on missing))
              (undone.1, undone.2, undone.0 ∙ sym f)
        | inr off ↦
            subst (λ x. IsKept lua m s (remove_sandbox api lua x))
              (sym (apply_sandbox-disabled lua address m s off))
              (subst (IsKept lua m s) (sym (remove_sandbox-missing lua m s missing))
                (refl, refl, refl))
      ]

  inside :
      (lua address : ℕ) (m : SandboxManager) (s : S)
      → is_sandboxed lua m ≡ true
      → leave_guard api lua (enter_guard api lua address (m, s)) ≡ (m, s)
  unfolding leave_guard enter_guard
  inside lua address m s e = rw (leave_guard, enter_guard, e) refl

  outside :
      (lua address : ℕ) (m : SandboxManager) (s : S)
      → is_sandboxed lua m ≡ false
      → leave_guard api lua (enter_guard api lua address (m, s))
        ≡ remove_sandbox api lua (apply_sandbox api lua address (m, s))
  unfolding leave_guard enter_guard
  outside lua address m s e = rw (leave_guard, enter_guard, e) refl

  -- A guard that is entered and left leaves the hook and the allocator of the state as they were, and
  -- the state sandboxed exactly if it was; this is where the hook before was none or one that counts.
  pub leave_guard-enter_guard :
      (lua address : ℕ) (m : SandboxManager) (s : S)
      → IsRestorable (api.hook s)
      → let r = leave_guard api lua (enter_guard api lua address (m, s)) in
        (api.hook r.1 ≡ api.hook s)
        × (api.allocator r.1 ≡ api.allocator s)
        × (is_sandboxed lua r.0 ≡ is_sandboxed lua m)
  unfolding leave_guard enter_guard
  leave_guard-enter_guard lua address m s restorable = elim (Bool-cases (is_sandboxed lua m)) [
    | inl e ↦ subst (IsKept lua m s) (sym (inside lua address m s e)) (refl, refl, refl)
    | inr f ↦
        subst (IsKept lua m s) (sym (outside lua address m s f))
          (guarded lua address m s f restorable)
  ]
