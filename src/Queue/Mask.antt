-- ===== src/Queue/Mask.antt =====
-- Positions that lie close to each other have different indices under a mask of ones.
use Prim.Native.Nat.{min, bit_and, digits, bit_and-bitwise}
use fast_rules.Base.{ℕ, zero, suc, ◌+◌, ◌*◌, ◌/◌, ◌%◌, ◌≤◌, ◌<◌, ◌≡◌, refl, ap, arith}

-- `k` ones, and the size of the buffer that they are the mask of.
abbrev pub ones : ℕ → ℕ
ones zero = 0
ones (suc k) = ones k * 2 + 1

abbrev pub power : ℕ → ℕ
power zero = 1
power (suc k) = power k * 2

-- `bit_and` with an explicit bound on its digits, which may be any number that is large enough.
abbrev bounded_and : ℕ → ℕ → ℕ → ℕ
bounded_and fuel i m = digits (λ _. zero) min fuel i m

bounded_and-eq : (f g i m : ℕ) → i ≤ f → i ≤ g → bounded_and f i m ≡ bounded_and g i m
bounded_and-eq zero zero i m hf hg = refl
bounded_and-eq zero (suc g) zero m hf hg = refl
bounded_and-eq zero (suc g) (suc i) m hf hg = absurd (omega arith)
bounded_and-eq (suc f) zero zero m hf hg = refl
bounded_and-eq (suc f) zero (suc i) m hf hg = absurd (omega arith)
bounded_and-eq (suc f) (suc g) zero m hf hg = refl
bounded_and-eq (suc f) (suc g) (suc i) m hf hg =
    let half = bounded_and-eq f g (suc i / 2) (m / 2) (omega arith) (omega arith) in
    omega (arith, half)

-- One more one in the mask keeps one more digit.
bit_and-ones-suc : (i k : ℕ) → bit_and i (ones (suc k)) ≡ bit_and (i / 2) (ones k) * 2 + i % 2
bit_and-ones-suc zero k =
    omega (arith, bit_and-bitwise 0 (ones (suc k)), bit_and-bitwise 0 (ones k))
bit_and-ones-suc (suc i) k =
    let half_mask : (ones k * 2 + 1) / 2 ≡ ones k = omega arith in
    omega (
      arith,
      bit_and-bitwise (suc i) (ones (suc k)),
      ap (bounded_and i (suc i / 2)) half_mask,
      bounded_and-eq i (suc i / 2) (suc i / 2) (ones k) (omega arith) (omega arith),
      bit_and-bitwise (suc i / 2) (ones k),
    )

no_mask : (f i : ℕ) → bounded_and f i 0 ≡ 0
no_mask zero i = refl
no_mask (suc f) zero = refl
no_mask (suc f) (suc i) = omega (arith, no_mask f (suc i / 2))

pub bit_and-ones-lt : (i k : ℕ) → bit_and i (ones k) < power k
bit_and-ones-lt i zero = omega (arith, bit_and-bitwise i 0, no_mask i i)
bit_and-ones-lt i (suc k) = omega (arith, bit_and-ones-suc i k, bit_and-ones-lt (i / 2) k)

pub bit_and-ones-ne :
    (k i j : ℕ) → i < j → j < i + power k → ¬ (bit_and i (ones k) ≡ bit_and j (ones k))
bit_and-ones-ne zero i j lt near e = omega arith
bit_and-ones-ne (suc k) i j lt near e =
    bit_and-ones-ne k (i / 2) (j / 2)
      (omega (arith, e, bit_and-ones-suc i k, bit_and-ones-suc j k, lt))
      (omega (arith, e, bit_and-ones-suc i k, bit_and-ones-suc j k, lt, near))
      (omega (arith, e, bit_and-ones-suc i k, bit_and-ones-suc j k))

pub ones-power : (k : ℕ) → ones k + 1 ≡ power k
ones-power zero = refl
ones-power (suc k) = omega (arith, ones-power k)
