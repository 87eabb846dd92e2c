-- ===== src/Limiter/Bounds.antt =====
-- How many executions a history of `isAllowed` and metrics calls lets through for one rule.
use fast_rules.Base.{
  ℕ, ◌+◌, ◌≤◌, ◌≡◌, refl, sym, ◌∙◌, inl, inr, List, [], ◌∷◌, ◌++◌, false, some, arith,
  if◌then◌else◌, Bool-cases, append_assoc, append-nil, ◌==◌, eq_iff, eq_refl, subst, Option-cases,
}
use fast_rules.Base.Dict.{lookup, insert, lookup-insert, lookup-insert_self}
use fast_rules.Base.Text.{Text, Text_eq}
use fast_rules.Limiter.{
  RuleState, RateLimiter, cleanup_old_entries, allow, is_allowed, get_current_executions_per_second,
}
use fast_rules.Limiter.Window.{
  count_between, start-Tracks, drop_old-Tracks, later-Tracks, push-Tracks,
}
use fast_rules.Limiter.Calls.{
  Span, period, window, IsLimited, allow-Decides, Call, asks, reads_second, reads_minute,
  cleanup-window, cleanup-IsLimited, step, run, starts, ends, InOrder, reads_minute-eq, Holds,
  if_same,
}

module _ (k : Text) (sp : Span) (n : ℕ) where
  -- A call about another rule leaves the state of `k` alone.
  Holds-frame :
      (clock now : ℕ) (past : List ℕ) (l l' : RateLimiter)
      → clock ≤ now
      → lookup k l' ≡ lookup k l
      → Holds k sp n clock past l
      → Holds k sp n now (past ++ []) l'
  Holds-frame clock now past l l' le same h = rw append-nil (record {
    state = h.state;
    found = same ∙ h.found;
    limited = h.limited;
    tracks = later-Tracks (period sp) n clock now past _ le h.tracks;
  })

  is_allowed_other :
      (cleaned now : ℕ) (name : Text) (l : RateLimiter)
      → (name == k) ≡ false
      → lookup k (is_allowed cleaned now name l).1 ≡ lookup k l
  unfolding is_allowed
  is_allowed_other cleaned now name l other = elim (Option-cases (lookup name l)) [
    | inl e ↦ rw (e, is_allowed)
    | inr (s, e) ↦
        rw (e, is_allowed) (lookup-insert name k (allow cleaned now s).1 l ∙ rw other refl)
  ]

  is_allowed_self :
      (cleaned now : ℕ) (l : RateLimiter) (s : RuleState)
      → lookup k l ≡ some s
      → (is_allowed cleaned now k l).0 ≡ (allow cleaned now s).0
        × (lookup k (is_allowed cleaned now k l).1 ≡ some (allow cleaned now s).1)
  unfolding is_allowed
  is_allowed_self cleaned now l s e =
      (rw (e, is_allowed), rw (e, is_allowed) (lookup-insert_self k (allow cleaned now s).1 l))

  asks-Holds :
      (clock cleaned now : ℕ) (past : List ℕ) (l : RateLimiter)
      → clock ≤ cleaned
      → cleaned ≤ now
      → Holds k sp n clock past l
      → Holds k sp n now
          (past ++ (if (is_allowed cleaned now k l).0 then now ∷ [] else []))
          (is_allowed cleaned now k l).1
  asks-Holds clock cleaned now past l le le' h =
      let s = h.state in
      let d = allow-Decides sp n cleaned now s h.limited in
      let (ok, found) = is_allowed_self cleaned now l s h.found in
      let tr =
        later-Tracks (period sp) n cleaned now past _ le'
          (drop_old-Tracks (period sp) n clock cleaned past _ le h.tracks) in
      elim d.outcome [
        | inl (granted, room, w) ↦
            rw (ok, granted)
              (record {
                state = (allow cleaned now s).1;
                found = found;
                limited = rw d.config h.limited;
                tracks = rw w (push-Tracks (period sp) n now past _ room tr);
              })
        | inr (denied, w) ↦
            rw (ok, denied, append-nil)
              (record {
                state = (allow cleaned now s).1;
                found = found;
                limited = rw d.config h.limited;
                tracks = rw w tr;
              })
      ]

  -- A metrics call cleans up and lets nothing through.
  cleaned-Holds :
      (clock now : ℕ) (past : List ℕ) (l : RateLimiter) (h : Holds k sp n clock past l)
      → clock ≤ now
      → Holds k sp n now (past ++ []) (insert k (cleanup_old_entries now h.state) l)
  cleaned-Holds clock now past l h le = rw append-nil (record {
    state = cleanup_old_entries now h.state;
    found = lookup-insert_self k _ l;
    limited = cleanup-IsLimited sp n now h.state h.limited;
    tracks =
        rw (cleanup-window sp now h.state)
          (drop_old-Tracks (period sp) n clock now past _ le h.tracks);
  })

  reads_second-Holds :
      (clock now : ℕ) (name : Text) (past : List ℕ) (l : RateLimiter)
      → clock ≤ now
      → Holds k sp n clock past l
      → Holds k sp n now (past ++ []) (get_current_executions_per_second now name l).1
  unfolding get_current_executions_per_second
  reads_second-Holds clock now name past l le h = elim (Bool-cases (name == k)) [
    | inl same ↦
        let e = (eq_iff name k).0 same in
        subst (λ x. Holds k sp n now (past ++ []) (get_current_executions_per_second now x l).1)
          (sym e)
          (rw (h.found, get_current_executions_per_second) (cleaned-Holds clock now past l h le))
    | inr other ↦
        Holds-frame clock now past l _ le
          (elim (Option-cases (lookup name l)) [
            | inl e ↦ rw (e, get_current_executions_per_second)
            | inr (s, e) ↦
                rw (e, get_current_executions_per_second)
                  (lookup-insert name k (cleanup_old_entries now s) l ∙ rw other refl)
          ])
          h
  ]

  step-Holds :
      (clock : ℕ) (past : List ℕ) (l : RateLimiter) (c : Call)
      → clock ≤ starts c
      → starts c ≤ ends c
      → Holds k sp n clock past l
      → Holds k sp n (ends c) (past ++ (step k l c).0) (step k l c).1
  unfolding step
  step-Holds clock past l (asks name cleaned now) le le' h = elim (Bool-cases (name == k)) [
    | inl same ↦
        subst
          (λ x.
            Holds k sp n now (past ++ (step k l (asks x cleaned now)).0)
              (step k l (asks x cleaned now)).1)
          (sym ((eq_iff name k).0 same))
          (rw (eq_refl k) (asks-Holds clock cleaned now past l le le' h))
    | inr other ↦
        rw (other, if_same {A = List ℕ} (is_allowed cleaned now name l).0 [])
          (Holds-frame clock now past l _ (omega arith) (is_allowed_other cleaned now name l other)
            h)
  ]
  step-Holds clock past l (reads_second name now) le le' h =
      reads_second-Holds clock now name past l le h
  step-Holds clock past l (reads_minute name now) le le' h =
      rw (reads_minute-eq now name l) (reads_second-Holds clock now name past l le h)

  run-Holds :
      (clock : ℕ) (past : List ℕ) (l : RateLimiter) (cs : List Call)
      → InOrder clock cs
      → Holds k sp n clock past l
      → (end : ℕ) × Holds k sp n end (past ++ (run k l cs).0) (run k l cs).1
  unfolding run
  run-Holds clock past l [] o h = (clock, rw append-nil h)
  run-Holds clock past l (c ∷ cs) o h =
      let (end, rest) = run-Holds (ends c) _ _ cs o.2 (step-Holds clock past l c o.0 o.1 h) in
      (end, rw append_assoc at rest)

-- Whatever else the limiter is asked in between, with a clock that does not run backwards: from an
-- empty window on, and until it is configured anew, a rule with a limit per second (or per minute) is
-- let through at most `n` times in every closed interval of a second (or a minute), where `n` is the
-- limit per minute for a minute, and for a second the burst size if one is set, above or below the
-- limit per second, and else the limit per second.
pub run-bounded :
    (k : Text) (sp : Span) (n clock : ℕ) (l : RateLimiter) (s : RuleState) (cs : List Call) (a : ℕ)
    → lookup k l ≡ some s
    → IsLimited sp s.config n
    → window sp s ≡ []
    → InOrder clock cs
    → count_between a (a + period sp) (run k l cs).0 ≤ n
run-bounded k sp n clock l s cs a found limited empty o =
    let (end, h) = run-Holds k sp n clock [] l cs o (record {
      state = s;
      found = found;
      limited = limited;
      tracks = rw empty (start-Tracks (period sp) n clock);
    }) in
    h.tracks.bounded a
