-- ===== src/Headless/Block/Session.antt =====
-- headless/block: everything that a successful run tells the controller.
use minimum_tests.Base.{ℕ, ◌+◌, ◌*◌, ◌≡◌, refl, List, ◌∷◌, ◌==◌, bit_or, u32, ◌<<◌}
use minimum_tests.Machine.{Bus, Event, store, Machine}
use minimum_tests.Runtime.{trace_base, trace_event, fail_stop, test_paddr}
use minimum_tests.Runtime.Block.{
  block_command, block_error, block_ack, block_unit, block_status, command_read, command_write,
  status_complete, status_error, error_none,
}
use minimum_tests.Platform.Registers.{
  interrupt_pending, interrupt_enable, interrupt_claim, interrupt_eoi, irq_block, block_control,
  error_busy, error_invalid_command, error_invalid_dma, error_invalid_lba, error_invalid_unit,
  unit_filesystem, unit_swap,
}
use minimum_tests.Headless.{for_each}
use minimum_tests.Headless.Ensures.{Ensures, passes, bind-Ensures}
use minimum_tests.Headless.Block.{
  check_units, check_errors, check_busy, check_irq, check_irqs, check_driver, checks, exact_command,
  block_main,
}
use minimum_tests.Headless.Tells.{Tells, seq-Tells, bind-Tells, pure-Tells, require-Tells}
use minimum_tests.Headless.Block.Told.{told, mmio_write-Tells, check-Tells}
use minimum_tests.Headless.Block.Steps.{
  requested, acknowledged, IsBuffer, poll_complete-Tells, wait_complete-Tells, command-Tells,
  exact_command-Tells, expect-Tells, check_set-Tells, check_clear-Tells, fill-Tells, replace-Tells,
}
use minimum_tests.Headless.Block.Driver.{block_read-Tells, block_write-Tells}

-- A command on one sector that is acknowledged before the next.
abbrev pub served : (unit operation lba address : ℕ) → List Event → List Event
served unit operation lba address log = acknowledged (requested unit operation lba 1 address log)

-- The parts of the case in their order; `address` is the buffer's.
abbrev pub units_told : (address : ℕ) → List Event → List Event
units_told address log = served unit_swap command_read 1 address (
    served unit_filesystem command_read 1 address (
      served unit_swap command_write 1 address (
        served unit_filesystem command_write 1 address
          (served unit_filesystem command_read 0 address log))))

abbrev pub errors_told : (address : ℕ) → List Event → List Event
errors_told address log = served 2 command_read 0 address (
    served unit_filesystem command_read 2 address (
      served unit_filesystem command_read 0 (u32 (address + 1))
        (served unit_filesystem 99 0 address log)))

-- The second command interferes: its unit and its command, with an acknowledgement for it alone.
abbrev pub busy_told : (address : ℕ) → List Event → List Event
busy_told address log = acknowledged (
    acknowledged (
      store block_command command_read
      ∷ store block_unit unit_swap
      ∷ requested unit_filesystem command_read 1 1 address log))

abbrev pub irqs_told : (address : ℕ) → List Event → List Event
irqs_told address log =
    served unit_swap command_read 0 address
      (served unit_filesystem command_read 0 address (store block_control 1 ∷ log))

abbrev pub driver_told : (address : ℕ) → List Event → List Event
driver_told address log =
    served 2 command_read 0 address
      (served unit_swap command_read 0 address (served unit_swap command_write 0 address log))

abbrev pub session : (address : ℕ) → List Event → List Event
session address log =
    driver_told address
      (irqs_told address (busy_told address (errors_told address (units_told address log))))

module _ {D : Type 0} ⦃bus : Bus D⦄ (rounds dma : ℕ) where
  -- One command of the case, on the buffer.
  exact-Tells :
      (unit operation lba expected : ℕ)
      → Tells {D = D} Unit told
          (exact_command rounds unit operation lba 1 (test_paddr dma) expected)
          (served unit operation lba (test_paddr dma))
  exact-Tells unit operation lba expected =
      exact_command-Tells rounds unit operation lba 1 (test_paddr dma) expected

  check_errors-Tells :
      Tells {D = D} Unit told (check_errors rounds dma) (errors_told (test_paddr dma))
  unfolding check_errors
  check_errors-Tells = seq-Tells (exact-Tells unit_filesystem 99 0 error_invalid_command) (
      seq-Tells
        (exact_command-Tells rounds unit_filesystem command_read 0 1 (u32 (test_paddr dma + 1))
          error_invalid_dma)
        (seq-Tells (exact-Tells unit_filesystem command_read 2 error_invalid_lba)
          (exact-Tells 2 command_read 0 error_invalid_unit)))

  check_irq-Tells :
      (unit : ℕ)
      → Tells {D = D} Unit told
          (check_irq rounds dma unit)
          (served unit command_read 0 (test_paddr dma))
  unfolding check_irq
  check_irq-Tells unit = seq-Tells (command-Tells unit command_read 0 1 (test_paddr dma)) (
      seq-Tells (poll_complete-Tells rounds) (
        seq-Tells (check_set-Tells interrupt_pending (1 << irq_block) (30 + unit * 3)) (
          seq-Tells (check-Tells interrupt_claim irq_block (31 + unit * 3)) (
            seq-Tells (mmio_write-Tells block_ack 1) (
              seq-Tells (mmio_write-Tells interrupt_eoi irq_block)
                (check_clear-Tells interrupt_pending (1 << irq_block) (32 + unit * 3)))))))

  check_irqs-Tells : Tells {D = D} Unit told (check_irqs rounds dma) (irqs_told (test_paddr dma))
  unfolding check_irqs for_each
  check_irqs-Tells = seq-Tells (mmio_write-Tells interrupt_enable (1 << irq_block)) (
      seq-Tells (mmio_write-Tells block_control 1) (
        seq-Tells (check_irq-Tells unit_filesystem)
          (seq-Tells (check_irq-Tells unit_swap) (pure-Tells tt))))

  module _ (buffer : IsBuffer dma) where
    check_units-Tells :
        Tells {D = D} Unit told (check_units rounds dma) (units_told (test_paddr dma))
    unfolding check_units
    check_units-Tells = seq-Tells (check-Tells block_unit unit_filesystem 1) (
        seq-Tells (exact-Tells unit_filesystem command_read 0 error_none) (
          seq-Tells (replace-Tells dma buffer) (
            seq-Tells (exact-Tells unit_filesystem command_write 1 error_none) (
              seq-Tells (fill-Tells dma buffer 0x5a) (
                seq-Tells (exact-Tells unit_swap command_write 1 error_none) (
                  seq-Tells (fill-Tells dma buffer 0) (
                    seq-Tells (exact-Tells unit_filesystem command_read 1 error_none) (
                      seq-Tells (expect-Tells dma 0xa5 4) (
                        seq-Tells (exact-Tells unit_swap command_read 1 error_none)
                          (expect-Tells dma 0x5a 8))))))))))

    check_busy-Tells : Tells {D = D} Unit told (check_busy rounds dma) (busy_told (test_paddr dma))
    unfolding check_busy
    check_busy-Tells = seq-Tells (fill-Tells dma buffer 0) (
        seq-Tells (command-Tells unit_filesystem command_read 1 1 (test_paddr dma)) (
          seq-Tells (mmio_write-Tells block_unit unit_swap) (
            seq-Tells (mmio_write-Tells block_command command_read) (
              seq-Tells (check-Tells block_error error_busy 5) (
                seq-Tells (mmio_write-Tells block_ack 1) (
                  seq-Tells (wait_complete-Tells rounds error_none) (
                    seq-Tells (check-Tells block_unit unit_swap 9) (expect-Tells dma 0xa5 11))))))))

    check_driver-Tells :
        Tells {D = D} Unit told (check_driver rounds dma) (driver_told (test_paddr dma))
    unfolding check_driver
    check_driver-Tells = seq-Tells (fill-Tells dma buffer 0x3c) (
        bind-Tells (block_write-Tells rounds unit_swap 0 1 (test_paddr dma)) (λ written.
          seq-Tells (require-Tells told (written == error_none) 40) (
            seq-Tells (fill-Tells dma buffer 0) (
              bind-Tells (block_read-Tells rounds unit_swap 0 1 (test_paddr dma)) (λ loaded.
                seq-Tells (require-Tells told (loaded == error_none) 41) (
                  seq-Tells (expect-Tells dma 0x3c 42) (
                    bind-Tells (block_read-Tells rounds 2 0 1 (test_paddr dma)) (λ refused.
                      seq-Tells (require-Tells told (refused == error_invalid_unit) 43) (
                        check_clear-Tells block_status (bit_or status_complete status_error)
                          44)))))))))

    checks-Tells : Tells {D = D} Unit told (checks rounds dma) (session (test_paddr dma))
    unfolding checks
    checks-Tells = seq-Tells check_units-Tells (
        seq-Tells check_errors-Tells
          (seq-Tells check_busy-Tells (seq-Tells check_irqs-Tells check_driver-Tells)))

    -- A buffer in the kernel's half of the addresses is given. On any devices and any number of
    -- rounds, the case stops behind the report of a failed assertion, is left in a poll, or stops
    -- behind its success value, and then the controller has been told exactly the commands of the
    -- case in their order: each with its parameters before it and one acknowledgement behind it,
    -- but for the command that interferes with the one under way.
    pub block_main-IsSession :
        (s : Machine D)
        → Ensures Unit
            (λ t.
              (told t.log ≡ session (test_paddr dma) (told s.log))
              × (log : List Event) × (t.log ≡ store trace_base 0x20030001 ∷ log))
            (λ done t. ⊥)
            (block_main rounds dma s)
    unfolding block_main trace_event fail_stop
    block_main-IsSession s =
        bind-Ensures _ _ _ _ _ _ (λ w. w) (checks-Tells.tells s)
          (λ done t e. passes _ (e, t.log, refl))
