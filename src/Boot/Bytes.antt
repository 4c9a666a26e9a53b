-- ===== src/Boot/Bytes.antt =====
-- The two byte loops of boot.c.
use minimum_tests.Base.{ℕ, ◌+◌, ◌^◌, ◌≤◌, refl, ◌⊎◌, arith, for_loop_rule}
use minimum_tests.Memory.{Memory, IsBytes, IsFilled, IsFilled-zero, IsFilled-suc}
use minimum_tests.Boot.{copy_byte, zero_byte, copy_bytes, zero_bytes}
use minimum_tests.Boot.Words.{at_no_wrap}

-- Copying forward is right when no source byte is written before it is read.
pub copy_bytes-IsFilled :
    (destination source count : ℕ) (m : Memory)
    → IsBytes m
    → destination + count ≤ 2 ^ 32
    → source + count ≤ 2 ^ 32
    → (destination ≤ source) ⊎ (source + count ≤ destination)
    → IsFilled (λ j. m (source + j)) destination count m (copy_bytes destination source count m)
unfolding copy_bytes
copy_bytes-IsFilled destination source count m h fits readable apart =
    for_loop_rule (copy_byte destination source)
      (λ i t. IsFilled (λ j. m (source + j)) destination i m t) count 0 count (omega arith)
      (λ i t lt f.
        rw (at_no_wrap destination i (omega arith), at_no_wrap source i (omega arith))
          (IsFilled-suc (λ j. m (source + j)) destination i (t (source + i)) f
            (omega (arith, f.bytes (source + i), f.outside (source + i) (omega arith)))))
      (IsFilled-zero _ destination h)

pub zero_bytes-IsFilled :
    (destination count : ℕ) (m : Memory)
    → IsBytes m
    → destination + count ≤ 2 ^ 32
    → IsFilled (λ _. 0) destination count m (zero_bytes destination count m)
unfolding zero_bytes
zero_bytes-IsFilled destination count m h fits =
    for_loop_rule (zero_byte destination) (λ i t. IsFilled (λ _. 0) destination i m t) count 0 count
      (omega arith)
      (λ i t lt f.
        rw (at_no_wrap destination i (omega arith)) (IsFilled-suc (λ _. 0) destination i 0 f refl))
      (IsFilled-zero _ destination h)
