-- ===== src/Headless/Interrupts/Dispatch.antt =====
-- One interrupt of the case.
use minimum_tests.Base.{
  ℕ, ◌+◌, ◌%◌, ◌^◌, ◌<◌, ◌≡◌, ◌≢◌, inl, inr, refl, ◌∷◌, Bool, true, false, ◌||◌, bit_and, ltb, ◌==◌,
  ◌!=◌, arith, ℕ_discrete,
}
use minimum_tests.Bits.{bit_and_bit}
use minimum_tests.Machine.{Bus, load, Machine, Result, ret, stopped, stored, irq_masked}
use minimum_tests.Runtime.{trace_base, require}
use minimum_tests.Runtime.Conformance.{require_lem}
use minimum_tests.Platform.TrapFrame.{TrapFrame}
use minimum_tests.Headless.Interrupts.{Irqs, noted, irq_dispatch}

module _ {D : Type 0} ⦃bus : Bus D⦄ (frame : TrapFrame) (t : Irqs) (s : Machine D) where
  -- The machine after the received byte is taken.
  abbrev pub taken : (address : ℕ) → Machine D
  taken address = record s {
    devices = (bus.read s.devices address).1;
    log = load address (bus.read s.devices address).0 ∷ s.log;
  }

  -- The machine after the report of a failed assertion.
  abbrev pub reported : (code : ℕ) → Machine D
  reported code = stored trace_base (0xf0000000 + code % 2 ^ 28) s

  -- How the dispatcher ends.
  pub data IsDispatched : Result D Irqs → Type 0 where
    unmasked_irq : irq_masked s.cpsr ≡ false → IsDispatched (stopped (reported 22))
    too_many : irq_masked s.cpsr ≡ true → ¬ (t.irq_count < 2) → IsDispatched (stopped (reported 20))
    bad_source :
        irq_masked s.cpsr ≡ true
        → t.irq_count < 2
        → frame.exception_id ≢ 1
        → frame.exception_id ≢ 2
        → IsDispatched (stopped (reported 21))
    from_uart0 :
        irq_masked s.cpsr ≡ true
        → t.irq_count < 2
        → frame.exception_id ≡ 1
        → IsDispatched (ret (noted 1 t) (stored 0x1000000c 1 (taken 0x10004000)))
    from_uart1 :
        irq_masked s.cpsr ≡ true
        → t.irq_count < 2
        → frame.exception_id ≡ 2
        → IsDispatched (ret (noted 2 t) (stored 0x1000000c 2 (taken 0x10005000)))

  abbrev masked_now : Bool
  masked_now = bit_and s.cpsr 0x80 != 0

  masked_lem : masked_now ≡ irq_masked s.cpsr
  masked_lem = ground (arith, bit_and_bit 7 s.cpsr)

  -- The last assertion, and what follows.
  after_checks :
      irq_masked s.cpsr ≡ true
      → t.irq_count < 2
      → require masked_now 22 s ≡ ret tt s
      → require (ltb t.irq_count 2) 20 s ≡ ret tt s
      → IsDispatched (irq_dispatch frame t s)
  unfolding irq_dispatch
  after_checks masked few holds holds' =
      elim (require_lem (frame.exception_id == 1 || frame.exception_id == 2) 21 s) [
        | inr (e, fails) ↦
            rw (holds, holds', fails) (bad_source masked few (ground arith) (ground arith))
        | inl (e, passes) ↦ elim (ℕ_discrete frame.exception_id 1) [
          | yes first ↦ rw (holds, holds', passes) (rw first (from_uart0 masked few refl))
          | no not_first ↦
              let second : frame.exception_id ≡ 2 = ground arith in
              rw (holds, holds', passes) (rw second (from_uart1 masked few refl))
        ]
      ]

  -- The dispatcher asserts that IRQ is masked, that it is the first or second interrupt, and that
  -- its source is a UART, and reports the first of these that fails. Otherwise it notes the source
  -- at the next index, takes the byte at the source's own UART, and only then ends the interrupt.
  pub irq_dispatch-IsDispatched : IsDispatched (irq_dispatch frame t s)
  irq_dispatch-IsDispatched = elim (require_lem masked_now 22 s) [
    | inr (e, fails) ↦ unfold irq_dispatch in rw fails (unmasked_irq (ground (arith, masked_lem)))
    | inl (e, holds) ↦ elim (require_lem (ltb t.irq_count 2) 20 s) [
      | inr (e', fails) ↦
          unfold irq_dispatch in
          rw (holds, fails) (too_many (ground (arith, masked_lem)) (ground arith))
      | inl (e', holds') ↦ after_checks (ground (arith, masked_lem)) (ground arith) holds holds'
    ]
  ]
