-- ===== src/Runtime/Mem/Move.antt =====
-- What `memcpy`, `memset` and `memmove` write.
use minimum_tests.Base.{
  ℕ, zero, suc, ◌+◌, ◌%◌, ◌^◌, ◌≤◌, ◌<◌, ◌≡◌, ◌⊎◌, inl, inr, refl, arith, u8, ltb, Bool-cases,
  for_loop, for_loop_rule,
}
use minimum_tests.Memory.{Memory, IsBytes, IsFilled, IsFilled-zero, IsFilled-suc, store_byte}
use minimum_tests.Runtime.Mem.{copy_at, set_at, copy_down, memcpy, memset, memmove}

-- The `length` bytes from `destination` on hold what stood at `source` before the call.
abbrev pub IsMoved : (destination source length : ℕ) → Memory → Memory → Type 0
IsMoved destination source length m m' = IsFilled (λ j. m (source + j)) destination length m m'

module _ (destination source length : ℕ) (m : Memory) (h : IsBytes m)
    (fits : destination + length ≤ 2 ^ 32) (readable : source + length ≤ 2 ^ 32) where
  copy_up-IsMoved :
      (destination ≤ source) ⊎ (source + length ≤ destination)
      → IsMoved destination source length m (for_loop (copy_at destination source) length 0 m)
  copy_up-IsMoved apart =
      for_loop_rule (copy_at destination source) (λ i t. IsMoved destination source i m t) length 0
        length (omega arith)
        (λ i t lt f.
          rw (at_low destination i (omega arith), at_low source i (omega arith))
            (IsFilled-suc (λ j. m (source + j)) destination i (t (source + i)) f
              (omega (arith, f.bytes (source + i), f.outside (source + i) (omega arith)))))
        (IsFilled-zero _ destination h)
    where
      at_low : (a i : ℕ) → a + i < 2 ^ 32 → (a + i) % 2 ^ 32 ≡ a + i
      at_low a i lt = omega arith

  -- Going down, the bytes from `index` on have been moved.
  record IsMovedDown (index : ℕ) (t : Memory) : Type 0 where
    bytes : IsBytes t
    inside : (j : ℕ) → index ≤ j → j < length → t (destination + j) ≡ m (source + j)
    outside : (a : ℕ) → (a < destination + index) ⊎ (destination + length ≤ a) → t a ≡ m a

  copy_down-IsMoved :
      (index : ℕ) (t : Memory)
      → source ≤ destination
      → index ≤ length
      → IsMovedDown index t
      → IsMoved destination source length m (copy_down destination source index t)
  unfolding copy_down store_byte
  copy_down-IsMoved zero t le below d = record {
    bytes = d.bytes;
    inside = λ j lt. d.inside j (omega arith) lt;
    outside = λ a off. d.outside a (omega arith);
  }
  copy_down-IsMoved (suc index) t le below d =
      copy_down-IsMoved index (copy_at destination source index t) le (omega arith) (record {
        bytes = λ a. ground (arith, d.bytes a);
        inside = λ j ge lt.
            ground (arith, d.inside j, d.bytes (source + index), d.outside (source + index));
        outside = λ a off. ground (arith, d.outside a);
      })

  -- For regions of memory that do not wrap around, however they overlap, `memmove` leaves at the
  -- destination what stood at the source, changes no other byte, and returns the destination.
  pub memmove-IsMoved :
      ((memmove destination source length m).0 ≡ destination)
      × IsMoved destination source length m (memmove destination source length m).1
  unfolding memmove
  memmove-IsMoved = elim (Bool-cases (ltb destination source)) [
    | inl lower ↦ rw lower (refl, copy_up-IsMoved (ground arith))
    | inr upper ↦ rw upper (
      refl,
      copy_down-IsMoved length m (ground arith) (omega arith)
          (record { bytes = h; inside = λ j ge lt. absurd (omega arith); outside = λ a off. refl }),
    )
  ]

  -- `memcpy` does the same for regions that do not overlap, and for a destination below the source.
  pub memcpy-IsMoved :
      (destination ≤ source) ⊎ (source + length ≤ destination)
      → ((memcpy destination source length m).0 ≡ destination)
        × IsMoved destination source length m (memcpy destination source length m).1
  unfolding memcpy
  memcpy-IsMoved apart = (refl, copy_up-IsMoved apart)

-- For a region that does not wrap around, `memset` stores the low byte of its value in each byte of
-- the region and nowhere else.
pub memset-IsFilled :
    (destination value length : ℕ) (m : Memory)
    → IsBytes m
    → destination + length ≤ 2 ^ 32
    → ((memset destination value length m).0 ≡ destination)
      × IsFilled (λ _. u8 value) destination length m (memset destination value length m).1
unfolding memset
memset-IsFilled destination value length m h fits = (
  refl,
  for_loop_rule (set_at destination value) (λ i t. IsFilled (λ _. u8 value) destination i m t)
      length 0 length (omega arith)
      (λ i t lt f.
        rw (at_low i lt) (IsFilled-suc (λ _. u8 value) destination i (u8 value) f (omega arith)))
      (IsFilled-zero _ destination h),
)
  where
    at_low : (i : ℕ) → i < length → (destination + i) % 2 ^ 32 ≡ destination + i
    at_low i lt = omega arith
