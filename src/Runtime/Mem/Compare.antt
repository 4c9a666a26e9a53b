-- ===== src/Runtime/Mem/Compare.antt =====
-- `memcmp` as the order of the first difference.
use minimum_tests.Base.{
  ℕ, zero, suc, ◌+◌, ◌%◌, ◌^◌, ◌≤◌, ◌<◌, ◌≡◌, ◌⊎◌, inl, inr, refl, ℤ, pos, negsuc, neg, arith, ltb,
  ◌!=◌, if◌then◌else◌,
}
use minimum_tests.Memory.{Memory}
use minimum_tests.Runtime.Mem.{compare_from, memcmp}

-- One round: what two bytes decide, or the rest of the loop.
abbrev verdict : ℕ → ℕ → ℤ → ℤ
verdict x y rest = if x != y then (if ltb x y then negsuc 0 else pos 1) else rest

verdict-cases :
    (x y : ℕ) (rest : ℤ)
    → ((x < y) × (verdict x y rest ≡ negsuc 0))
      ⊎ (((y < x) × (verdict x y rest ≡ pos 1)) ⊎ ((x ≡ y) × (verdict x y rest ≡ rest)))
verdict-cases x y rest = ground arith

module _ (m : Memory) (a b : ℕ) where
  abbrev pub Agree : ℕ → ℕ → Type 0
  Agree from to = (j : ℕ) → from ≤ j → j < to → m (a + j) ≡ m (b + j)

  -- How the bytes `from` to `to` of the two regions compare.
  pub data Compared (from to : ℕ) : ℤ → Type 0 where
    equal : Agree from to → Compared from to (pos 0)
    below :
        (i : ℕ)
        → from ≤ i
        → i < to
        → Agree from i
        → m (a + i) < m (b + i)
        → Compared from to (negsuc 0)
    above :
        (i : ℕ)
        → from ≤ i
        → i < to
        → Agree from i
        → m (b + i) < m (a + i)
        → Compared from to (pos 1)

  Compared-suc :
      (i to : ℕ) {r : ℤ} → m (a + i) ≡ m (b + i) → Compared (suc i) to r → Compared i to r
  Compared-suc i to e (equal h) = equal (λ j ge lt. ground (arith, h j))
  Compared-suc i to e (below k ge lt h d) =
      below k (omega arith) lt (λ j ge' lt'. ground (arith, h j)) d
  Compared-suc i to e (above k ge lt h d) =
      above k (omega arith) lt (λ j ge' lt'. ground (arith, h j)) d

  compare_from-Compared :
      (rounds i to : ℕ)
      → i + rounds ≡ to
      → a + to ≤ 2 ^ 32
      → b + to ≤ 2 ^ 32
      → Compared i to (compare_from a b rounds i m)
  unfolding compare_from
  compare_from-Compared zero i to e fa fb = equal (λ j ge lt. absurd (omega arith))
  compare_from-Compared (suc rounds) i to e fa fb =
      rw (low a (omega arith), low b (omega arith))
        (elim (verdict-cases (m (a + i)) (m (b + i)) (compare_from a b rounds (suc i) m)) [
          | inl (lt, v) ↦ rw v (below i (omega arith) (omega arith) nothing lt)
          | inr (inl (gt, v)) ↦ rw v (above i (omega arith) (omega arith) nothing gt)
          | inr (inr (same, v)) ↦
              rw v (
                Compared-suc i to same
                  (compare_from-Compared rounds (suc i) to (omega arith) fa fb))
        ])
    where
      low : (p : ℕ) → p + i < 2 ^ 32 → (p + i) % 2 ^ 32 ≡ p + i
      low p lt = omega arith

      nothing : Agree i i
      nothing j ge lt = absurd (omega arith)

  -- For regions that do not wrap around, `memcmp` returns 0 for equal ones, and otherwise the sign
  -- of the first difference, bytes compared as unsigned numbers.
  pub memcmp-Compared :
      (length : ℕ)
      → a + length ≤ 2 ^ 32
      → b + length ≤ 2 ^ 32
      → Compared 0 length (memcmp a b length m)
  unfolding memcmp
  memcmp-Compared length fa fb = compare_from-Compared length 0 length (omega arith) fa fb

-- A comparison determines the result, and the reversed one its opposite.
Compared-swap :
    (m : Memory) (a b to : ℕ) {r r' : ℤ}
    → Compared m a b 0 to r
    → Compared m b a 0 to r'
    → r' ≡ neg r
Compared-swap m a b to (equal h) (equal k) = refl
Compared-swap m a b to (equal h) (below i ge lt k d) = absurd (omega (arith, h i ge lt))
Compared-swap m a b to (equal h) (above i ge lt k d) = absurd (omega (arith, h i ge lt))
Compared-swap m a b to (below i ge lt h d) (equal k) = absurd (omega (arith, k i ge lt))
Compared-swap m a b to (below i ge lt h d) (above i' ge' lt' k d') = refl
Compared-swap m a b to (below i ge lt h d) (below i' ge' lt' k d') =
    absurd (ground (arith, h i', k i))
Compared-swap m a b to (above i ge lt h d) (equal k) = absurd (omega (arith, k i ge lt))
Compared-swap m a b to (above i ge lt h d) (below i' ge' lt' k d') = refl
Compared-swap m a b to (above i ge lt h d) (above i' ge' lt' k d') =
    absurd (ground (arith, h i', k i))

-- For regions that do not wrap around, exchanging the two negates the result of `memcmp`.
pub memcmp_swap :
    (a b length : ℕ) (m : Memory)
    → a + length ≤ 2 ^ 32
    → b + length ≤ 2 ^ 32
    → memcmp b a length m ≡ neg (memcmp a b length m)
memcmp_swap a b length m fa fb =
    Compared-swap m a b length (memcmp-Compared m a b length fa fb)
      (memcmp-Compared m b a length fb fa)
