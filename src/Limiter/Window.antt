-- ===== src/Limiter/Window.antt =====
-- One sliding window: what `drop_old` keeps, and how many entries an interval can hold.
use fast_rules.Base.{
  ℕ, suc, ◌+◌, ◌≤◌, ◌<◌, ◌≡◌, refl, sym, ap, ◌∙◌, inl, inr, List, [], ◌∷◌, ◌++◌, ◌&&◌, ltb, leb,
  arith, ltb→lt, leb→le, Bool-cases, if◌then◌else◌, length, All, append_assoc,
}
use fast_rules.Limiter.{drop_old}

-- How many times lie in the closed interval from `a` to `b`.
abbrev pub count_between : ℕ → ℕ → List ℕ → ℕ
count_between a b [] = 0
count_between a b (t ∷ ts) =
    if leb a t && leb t b then suc (count_between a b ts) else count_between a b ts

pub count_between-append :
    (a b : ℕ) (xs ys : List ℕ)
    → count_between a b (xs ++ ys) ≡ count_between a b xs + count_between a b ys
count_between-append a b [] ys = omega arith
count_between-append a b (x ∷ xs) ys = ground (arith, count_between-append a b xs ys)

pub count_between-le : (a b : ℕ) (xs : List ℕ) → count_between a b xs ≤ length xs
count_between-le a b [] = omega arith
count_between-le a b (x ∷ xs) = ground (arith, count_between-le a b xs)

-- Times that are all before `a` do not count.
pub count_between_before : (a b : ℕ) (xs : List ℕ) → All (λ t. t < a) xs → count_between a b xs ≡ 0
count_between_before a b [] h = refl
count_between_before a b (x ∷ xs) h = ground (arith, count_between_before a b xs h.1)

-- Each time is at most the next.
abbrev pub Sorted : ℕ → List ℕ → Type 0
Sorted lo [] = Unit {0}
Sorted lo (t ∷ ts) = (lo ≤ t) × Sorted t ts

-- What `drop_old` drops stands in front, and is older than the period.
pub record Dropped (period now : ℕ) (w : List ℕ) : Type 0 where
  pub old : List ℕ
  pub split : w ≡ old ++ drop_old period now w
  pub is_old : All (λ t. t + period < now) old

pub drop_old-Dropped : (period now : ℕ) (w : List ℕ) → Dropped period now w
unfolding drop_old
drop_old-Dropped period now [] = record { old = []; split = refl; is_old = tt }
drop_old-Dropped period now (t ∷ ts) = elim (Bool-cases (ltb (t + period) now)) [
  | inl old ↦
      let d = drop_old-Dropped period now ts in
      record {
        old = t ∷ d.old;
        split = rw (old, drop_old) (ap (◌∷◌ t) d.split);
        is_old = (ltb→lt _ _ old, d.is_old);
      }
  | inr new ↦ record { old = []; split = rw (new, drop_old); is_old = tt }
]

All-old_mono :
    (period a b : ℕ) (xs : List ℕ)
    → a ≤ b
    → All (λ t. t + period < a) xs
    → All (λ t. t + period < b) xs
All-old_mono period a b [] le h = tt
All-old_mono period a b (x ∷ xs) le h = (omega arith, All-old_mono period a b xs le h.1)

All-append {ℓ κ} :
    {A : Type ℓ} (P : A → Type κ) (xs ys : List A) → All P xs → All P ys → All P (xs ++ ys)
All-append P [] ys hx hy = hy
All-append P (x ∷ xs) ys hx hy = (hx.0, All-append P xs ys hx.1 hy)

All-before :
    (period a b : ℕ) (xs : List ℕ)
    → a ≤ b + period
    → All (λ t. t + period < a) xs
    → All (λ t. t < b) xs
All-before period a b [] le h = tt
All-before period a b (x ∷ xs) le h = (omega arith, All-before period a b xs le h.1)

-- `past` holds every time that was let through, `w` the window at the time `clock`: what is no
-- longer in the window is older than the period, and no interval of that length has too many.
pub record Tracks (period limit clock : ℕ) (past w : List ℕ) : Type 0 where
  pub old : List ℕ
  pub split : past ≡ old ++ w
  pub is_old : All (λ t. t + period < clock) old
  pub bounded : (a : ℕ) → count_between a (a + period) past ≤ limit

pub start-Tracks : (period limit clock : ℕ) → Tracks period limit clock [] []
start-Tracks period limit clock = record {
  old = [];
  split = refl;
  is_old = tt;
  bounded = λ a. omega arith;
}

pub drop_old-Tracks :
    (period limit clock now : ℕ) (past w : List ℕ)
    → clock ≤ now
    → Tracks period limit clock past w
    → Tracks period limit now past (drop_old period now w)
drop_old-Tracks period limit clock now past w le tr =
    let d = drop_old-Dropped period now w in
    record {
      old = tr.old ++ d.old;
      split = tr.split ∙ ap (◌++◌ tr.old) d.split ∙ sym (append_assoc tr.old d.old _);
      is_old =
          All-append _ tr.old d.old (All-old_mono period clock now tr.old le tr.is_old) d.is_old;
      bounded = tr.bounded;
    }

-- A later clock reading changes nothing.
pub later-Tracks :
    (period limit clock now : ℕ) (past w : List ℕ)
    → clock ≤ now
    → Tracks period limit clock past w
    → Tracks period limit now past w
later-Tracks period limit clock now past w le tr = record {
  old = tr.old;
  split = tr.split;
  is_old = All-old_mono period clock now tr.old le tr.is_old;
  bounded = tr.bounded;
}

push_bounded :
    (period limit clock : ℕ) (past w : List ℕ) (a : ℕ)
    → length w < limit
    → Tracks period limit clock past w
    → count_between a (a + period) (past ++ clock ∷ []) ≤ limit
push_bounded period limit clock past w a room tr = elim (Bool-cases (leb clock (a + period))) [
  | inl inside ↦
      let before : All (λ t. t < a) tr.old =
        All-before period clock a tr.old (leb→le _ _ inside) tr.is_old in
      ground (
        arith,
        count_between-append a (a + period) past (clock ∷ []),
        ap (count_between a (a + period)) tr.split,
        count_between-append a (a + period) tr.old w,
        count_between_before a (a + period) tr.old before,
        count_between-le a (a + period) w,
      )
  | inr beyond ↦ ground (arith, count_between-append a (a + period) past (clock ∷ []), tr.bounded a)
]

-- A window with room takes one more time.
pub push-Tracks :
    (period limit clock : ℕ) (past w : List ℕ)
    → length w < limit
    → Tracks period limit clock past w
    → Tracks period limit clock (past ++ clock ∷ []) (w ++ clock ∷ [])
push-Tracks period limit clock past w room tr = record {
  old = tr.old;
  split = ap (λ l. l ++ clock ∷ []) tr.split ∙ append_assoc tr.old w (clock ∷ []);
  is_old = tr.is_old;
  bounded = λ a. push_bounded period limit clock past w a room tr;
}
