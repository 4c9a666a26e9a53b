-- ===== src/Runtime/Conformance.antt =====
-- The assertions of kernel/include/minemu/conformance.h.
use minimum_tests.Base.{
  ℕ, ◌+◌, ◌%◌, ◌^◌, ◌≡◌, ◌⊎◌, inl, inr, refl, Bool, true, false, bit_and, bit_or, arith,
}
use minimum_tests.Bits.{bit_and_mask, bit_or_high}
use minimum_tests.Machine.{Bus, Machine, ret, stopped, stored}
use minimum_tests.Runtime.{trace_base, require, conformance_fail, trace_event, fail_stop}

-- The value that a failed assertion reports: the code's low 28 bits under the nibble 0xf.
failure_value :
    (code : ℕ) → bit_or 0xf0000000 (bit_and code 0x0fffffff) ≡ 0xf0000000 + code % 2 ^ 28
failure_value code = omega (
  arith,
  bit_and_mask 28 code,
  bit_or_high 28 15 (bit_and code 0x0fffffff) (omega (arith, bit_and_mask 28 code)),
)

module _ {D : Type 0} ⦃bus : Bus D⦄ where
  pub conformance_fail_lem :
      {A : Type 0} (code : ℕ) (s : Machine D)
      → conformance_fail {A = A} code s ≡ stopped (stored trace_base (0xf0000000 + code % 2 ^ 28) s)
  unfolding conformance_fail trace_event fail_stop
  conformance_fail_lem code s = rw (failure_value code) refl

  -- An assertion that holds leaves no trace. One that fails stops the machine with one report on
  -- the trace port, whose top nibble is 0xf over the low 28 bits of the assertion's code.
  pub require_lem :
      (condition : Bool) (code : ℕ) (s : Machine D)
      → ((condition ≡ true) × (require condition code s ≡ ret tt s))
        ⊎ ((condition ≡ false)
            × (require condition code s
                ≡ stopped (stored trace_base (0xf0000000 + code % 2 ^ 28) s)))
  unfolding require
  require_lem true code s = inl (refl, refl)
  require_lem false code s = inr (refl, conformance_fail_lem code s)

  pub require_holds :
      (condition : Bool) (code : ℕ) (s : Machine D)
      → condition ≡ true
      → require condition code s ≡ ret tt s
  unfolding require
  require_holds true code s e = refl
  require_holds false code s e = cc
