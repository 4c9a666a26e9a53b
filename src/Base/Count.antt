-- ===== src/Base/Count.antt =====
-- How many numbers fit below another.
use Prim.Native.Nat.{ℕ, zero, suc, ◌≤◌, ◌<◌}
use mathlib.Core.Path.{◌≡◌}
use native.Mathlib.Omega.{arith}
use minimum_tests.Base.Tests.{◌==◌, if◌then◌else◌}

-- Where the largest of the values is taken elsewhere, the last value stands in for it.
abbrev without : (n last value : ℕ) → ℕ
without n last value = if value == n then last else value

-- An assignment of distinct numbers below `n` to the indices below `k` is possible only if `k` is
-- at most `n`.
pub pigeonhole :
    (n k : ℕ) (f : (i : ℕ) → i < k → ℕ)
    → ((i : ℕ) (lt : i < k) → f i lt < n)
    → ((i j : ℕ) (li : i < k) (lj : j < k) → f i li ≡ f j lj → i ≡ j)
    → k ≤ n
pigeonhole n zero f below distinct = omega arith
pigeonhole zero (suc k) f below distinct = absurd (omega (arith, below 0 (omega arith)))
pigeonhole (suc n) (suc k) f below distinct =
    omega (arith, pigeonhole n k (λ i lt. without n last (f i (up i lt))) smaller apart)
  where
    up : (i : ℕ) → i < k → i < suc k
    up i lt = omega arith

    end : k < suc k
    end = omega arith

    last : ℕ
    last = f k end

    smaller : (i : ℕ) (lt : i < k) → without n last (f i (up i lt)) < n
    smaller i lt = ground (arith, below i (up i lt), below k end, distinct i k (up i lt) end)

    apart :
        (i j : ℕ) (li : i < k) (lj : j < k)
        → without n last (f i (up i li)) ≡ without n last (f j (up j lj))
        → i ≡ j
    apart i j li lj = ground (
      arith,
      distinct i j (up i li) (up j lj),
      distinct i k (up i li) end,
      distinct j k (up j lj) end,
    )
