-- ===== src/Aot/Requests/Served.antt =====
-- What LuaExpressionCache, src/aot_compiler.cpp, answers.
use fast_rules.Base.{
  ℕ, zero, suc, ◌+◌, ◌≤◌, ◌<◌, ◌≡◌, refl, sym, ap, ◌∙◌, ◌==◌, inl, inr, List, [], ◌∷◌, Option, none,
  some, arith, leb, length, All, Bool-cases, Option-cases,
}
use fast_rules.Base.Dict.{
  Dict, lookup, insert, All-insert, All-lookup, length-insert-le, lookup-insert_self,
}
use fast_rules.Base.Text.{Text, Text_eq}
use fast_rules.Aot.{
  LuaExpressionCache, new_expression_cache, remove_at, make_space, keep_compiled,
  get_or_compile_expression,
}
use fast_rules.Aot.Requests.{
  Request, ask, after_requests, Returned, here, there, IsAnswer, AreAnswered, otherwise,
  repeated_request,
}

abbrev HasReturned : List Request → Text × Text → Type 0
HasReturned earlier entry = Returned entry.0 entry.1 earlier

-- Every entry is what the function of an earlier request returned, and there are not too many.
record IsFaithful (earlier : List Request) (c : LuaExpressionCache) : Type 0 where
  limited : c.max_cache_size ≡ 1000
  bounded : length c.cache ≤ 1000
  compiled : All (HasReturned earlier) c.cache

all_there :
    (r : Request) (earlier : List Request) (d : Dict Text Text)
    → All (HasReturned earlier) d
    → All (HasReturned (r ∷ earlier)) d
all_there r earlier [] h = tt
all_there r earlier (x ∷ d) h = (there r earlier h.0, all_there r earlier d h.1)

later-IsFaithful :
    (r : Request) (earlier : List Request) (c : LuaExpressionCache)
    → IsFaithful earlier c
    → IsFaithful (r ∷ earlier) c
later-IsFaithful r earlier c h = record {
  limited = h.limited;
  bounded = h.bounded;
  compiled = all_there r earlier c.cache h.compiled;
}

remove_at-All :
    (n : ℕ) (d : Dict Text Text) (P : Text × Text → Type 0) → All P d → All P (remove_at n d)
remove_at-All n [] P h = tt
remove_at-All zero (x ∷ xs) P h = h.1
remove_at-All (suc n) (x ∷ []) P h = tt
remove_at-All (suc n) (x ∷ y ∷ xs) P h = (h.0, remove_at-All n (y ∷ xs) P h.1)

length-remove_at :
    (n : ℕ) (d : Dict Text Text) → 0 < length d → length (remove_at n d) + 1 ≡ length d
length-remove_at n [] h = absurd (omega arith)
length-remove_at zero (x ∷ xs) h = omega arith
length-remove_at (suc n) (x ∷ []) h = refl
length-remove_at (suc n) (x ∷ y ∷ xs) h = omega (arith, length-remove_at n (y ∷ xs) (omega arith))

make_space-IsFaithful :
    (victim : ℕ) (earlier : List Request) (c : LuaExpressionCache)
    → IsFaithful earlier c
    → IsFaithful earlier (make_space victim c) × (length (make_space victim c).cache < 1000)
unfolding make_space
make_space-IsFaithful victim earlier c h =
    elim (Bool-cases (leb c.max_cache_size (length c.cache))) [
      | inl full ↦
          let shorter : length (remove_at victim c.cache) + 1 ≡ length c.cache =
            length-remove_at victim c.cache (ground (arith, h.limited, full)) in
          rw full (
            record {
              limited = h.limited;
              bounded = omega (arith, h.bounded, shorter);
              compiled = remove_at-All victim c.cache _ h.compiled;
            },
            omega (arith, h.bounded, shorter),
          )
      | inr free ↦ rw free (h, ground (arith, h.limited, free))
    ]

keep_compiled-IsFaithful :
    (r : Request) (earlier : List Request) (answer : Option Text) (c : LuaExpressionCache)
    → r.compile r.expression ≡ answer
    → length c.cache < 1000
    → IsFaithful earlier c
    → IsAnswer earlier r (keep_compiled r.expression answer c).0
      × IsFaithful (r ∷ earlier) (keep_compiled r.expression answer c).1
keep_compiled-IsFaithful r earlier none c eq room h = (inl (sym eq), later-IsFaithful r earlier c h)
keep_compiled-IsFaithful r earlier (some b) c eq room h = (
  inl (sym eq),
  record {
    limited = h.limited;
    bounded = omega (arith, length-insert-le r.expression b c.cache, room);
    compiled =
        All-insert _ r.expression b c.cache (all_there r earlier c.cache h.compiled)
          (here r earlier refl eq);
  },
)

ask-IsFaithful :
    (r : Request) (earlier : List Request) (c : LuaExpressionCache)
    → IsFaithful earlier c
    → IsAnswer earlier r (ask r c).0 × IsFaithful (r ∷ earlier) (ask r c).1
unfolding get_or_compile_expression
ask-IsFaithful r earlier c h = elim (Option-cases (lookup r.expression c.cache)) [
  | inl absent ↦
      let space = make_space-IsFaithful r.victim earlier c h in
      rw absent (
        keep_compiled-IsFaithful r earlier (r.compile r.expression) (make_space r.victim c) refl
          space.1 space.0)
  | inr (b, found) ↦
      let known = All-lookup (HasReturned earlier) r.expression b c.cache h.compiled found in
      rw found (inr (b, refl, known), later-IsFaithful r earlier c h)
]

after_requests-IsFaithful :
    (rs earlier : List Request) (c : LuaExpressionCache)
    → IsFaithful earlier c
    → AreAnswered earlier c rs × (length (after_requests c rs).cache ≤ 1000)
after_requests-IsFaithful [] earlier c h = (tt, h.bounded)
after_requests-IsFaithful (r ∷ rs) earlier c h =
    let first = ask-IsFaithful r earlier c h in
    let rest = after_requests-IsFaithful rs (r ∷ earlier) (ask r c).1 first.1 in
    ((first.0, rest.0), rest.1)

lookup-remove_at :
    (e : Text) (n : ℕ) (d : Dict Text Text) → lookup e d ≡ none → lookup e (remove_at n d) ≡ none
unfolding lookup
lookup-remove_at e n [] h = refl
lookup-remove_at e zero (x ∷ xs) h = ground arith
lookup-remove_at e (suc n) (x ∷ []) h = refl
lookup-remove_at e (suc n) (x ∷ y ∷ xs) h = elim (Bool-cases (x.0 == e)) [
  | inl same ↦ absurd (ground arith)
  | inr other ↦ rw other (lookup-remove_at e n (y ∷ xs) (rw other at h))
]

lookup-make_space :
    (e : Text) (victim : ℕ) (c : LuaExpressionCache)
    → lookup e c.cache ≡ none
    → lookup e (make_space victim c).cache ≡ none
unfolding make_space
lookup-make_space e victim c h = elim (Bool-cases (leb c.max_cache_size (length c.cache))) [
  | inl full ↦ rw full (lookup-remove_at e victim c.cache h)
  | inr free ↦ rw free h
]

-- An expression that is in the cache, and one that is not.
ask_known :
    (r : Request) (b : Text) (c : LuaExpressionCache)
    → lookup r.expression c.cache ≡ some b
    → ask r c ≡ (some b, c)
unfolding get_or_compile_expression
ask_known r b c h = rw h refl

ask_unknown :
    (r : Request) (c : LuaExpressionCache)
    → lookup r.expression c.cache ≡ none
    → ask r c ≡ keep_compiled r.expression (r.compile r.expression) (make_space r.victim c)
unfolding get_or_compile_expression
ask_unknown r c h = rw h refl

kept_answer : (e : Text) (o : Option Text) (c : LuaExpressionCache) → (keep_compiled e o c).0 ≡ o
kept_answer e none c = refl
kept_answer e (some b) c = refl

repeated_request_lem :
    (r : Request) (victim : ℕ) (compile : Text → Option Text) (c : LuaExpressionCache)
    → repeated_request r victim compile c ≡ otherwise (ask r c).0 (compile r.expression)
repeated_request_lem r victim compile c =
    let again : Request = record {
      victim = victim;
      expression = r.expression;
      compile = compile;
    } in
    let kept = make_space r.victim c in
    let asked = λ (p : Option Text × LuaExpressionCache). (ask again p.1).0 in
    let expected = λ (p : Option Text × LuaExpressionCache). otherwise p.0 (compile r.expression) in
    elim (Option-cases (lookup r.expression c.cache)) [
      | inr (b, found) ↦
          let e = ask_known r b c found in
          ap asked e ∙ ap (λ p. p.0) (ask_known again b c found) ∙ sym (ap expected e)
      | inl absent ↦ elim (Option-cases (r.compile r.expression)) [
        | inl refused ↦
            let e = ask_unknown r c absent ∙ ap (λ o. keep_compiled r.expression o kept) refused in
            ap asked e
            ∙ ap (λ p. p.0)
                (ask_unknown again kept (lookup-make_space r.expression r.victim c absent))
            ∙ kept_answer r.expression (compile r.expression) (make_space victim kept)
            ∙ sym (ap expected e)
        | inr (b, done) ↦
            let e = ask_unknown r c absent ∙ ap (λ o. keep_compiled r.expression o kept) done in
            ap asked e
            ∙ ap (λ p. p.0)
                (ask_known again b (record kept { cache = insert r.expression b kept.cache })
                  (lookup-insert_self r.expression b kept.cache))
            ∙ sym (ap expected e)
      ]
    ]

-- For any requests of a new expression cache, each with its own function and whichever entries are
-- evicted: each answer is what the request's own function returns, or a text that the function of an
-- earlier request for the expression returned; the cache holds at most 1000 entries; and a request
-- that is repeated next with any other function is answered with the same text, or, where the first
-- one threw, with what the other function returns.
pub after_requests-AreAnswered :
    (rs : List Request) (r : Request) (victim : ℕ) (compile : Text → Option Text)
    → AreAnswered [] new_expression_cache rs
      × (length (after_requests new_expression_cache rs).cache ≤ 1000)
      × (repeated_request r victim compile (after_requests new_expression_cache rs)
          ≡ otherwise (ask r (after_requests new_expression_cache rs)).0 (compile r.expression))
after_requests-AreAnswered rs r victim compile =
    let h =
      after_requests-IsFaithful rs [] new_expression_cache
        (record { limited = refl; bounded = omega arith; compiled = tt }) in
    (h.0, h.1, repeated_request_lem r victim compile (after_requests new_expression_cache rs))
