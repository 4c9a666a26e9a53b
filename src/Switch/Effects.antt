-- ===== src/Switch/Effects.antt =====
-- What one interrupt does to the devices.
use minimum_tests.Base.{ℕ, ℕ_discrete, ◌+◌, ◌%◌, ◌^◌, ◌≡◌, ◌≢◌, refl, ◌∷◌, arith}
use minimum_tests.Machine.{Bus, load, Machine, ret, stored}
use minimum_tests.Switch.{Program, IrqTasks, choose, acknowledge, irq_dispatch}

module _ {D : Type 0} ⦃bus : Bus D⦄ where
  -- The machine after the acknowledgement of a source.
  pub data Acknowledged (s : Machine D) : (source : ℕ) → Machine D → Type 0 where
    systick : Acknowledged s 0 (stored 0x1000100c 1 s)
    uart0 : Acknowledged s 1 (record s {
      devices = (bus.read s.devices 0x10004000).1;
      log = load 0x10004000 (bus.read s.devices 0x10004000).0 ∷ s.log;
    })
    uart1 : Acknowledged s 2 (record s {
      devices = (bus.read s.devices 0x10005000).1;
      log = load 0x10005000 (bus.read s.devices 0x10005000).0 ∷ s.log;
    })
    block : Acknowledged s 3 (stored 0x10002018 1 s)
    unknown :
        (source : ℕ) → source ≢ 0 → source ≢ 1 → source ≢ 2 → source ≢ 3 → Acknowledged s source s

  acknowledge-Acknowledged :
      (source : ℕ) (s : Machine D)
      → (t : Machine D) × (acknowledge source s ≡ ret tt t) × Acknowledged s source t
  unfolding acknowledge
  acknowledge-Acknowledged source s = elim (ℕ_discrete source 0) [
    | yes e ↦ rw e (_, refl, systick)
    | no not_systick ↦ elim (ℕ_discrete source 1) [
      | yes e ↦ rw e (_, refl, uart0)
      | no not_uart0 ↦ elim (ℕ_discrete source 2) [
        | yes e ↦ rw e (_, refl, uart1)
        | no not_uart1 ↦ elim (ℕ_discrete source 3) [
          | yes e ↦ rw e (_, refl, block)
          | no not_block ↦
              (s, ground arith, unknown source not_systick not_uart0 not_uart1 not_block)
        ]
      ]
    ]
  ]

  -- The interrupt is counted, its source acknowledged at its own device if it is one of the four,
  -- and only then ended at the interrupt controller; the frame to return to does not depend on the
  -- devices.
  pub irq_dispatch-Acknowledged :
      (program : Program) (frame : ℕ) (t : IrqTasks) (s : Machine D)
      → let source = (t.frames frame).exception_id in
        (acked : Machine D) × Acknowledged s source acked
        × (irq_dispatch program frame t s
            ≡ ret
                (choose program frame source
                  (record t { interrupt_count = (t.interrupt_count + 1) % 2 ^ 32 }))
                (stored 0x1000000c source acked))
  unfolding irq_dispatch
  irq_dispatch-Acknowledged program frame t s =
      let (acked, e, a) = acknowledge-Acknowledged (t.frames frame).exception_id s in
      (acked, a, rw e refl)
