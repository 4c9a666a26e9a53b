-- ===== src/Headless/Block/Steps.antt =====
-- headless/block: what each function of the case tells the controller.
use minimum_tests.Base.{
  ℕ, zero, suc, ◌+◌, ◌^◌, ◌<◌, ◌≤◌, ◌≡◌, refl, arith, false, List, ◌∷◌, bit_and, ◌==◌, ◌!=◌,
  same_truth, bit_or, ◌<<◌, u32,
}
use minimum_tests.Machine.{Bus, Event, store, mmio_write}
use minimum_tests.Runtime.{trace_base, trace_event}
use minimum_tests.Runtime.Block.{
  block_command, block_lba, block_sector_count, block_dma_paddr, block_status, block_error,
  block_ack, block_unit, status_complete, status_error, error_none,
}
use minimum_tests.Platform.Registers.{sector_size}
use minimum_tests.Headless.{check_set, check_clear}
use minimum_tests.Headless.Ensures.{waits, returns, require-Ensures}
use minimum_tests.Headless.Block.{
  poll_complete, check_error, wait_complete, set_parameters, command, block_exact_32, exact_command,
  fill, expect, replace,
}
use minimum_tests.Headless.Tells.{
  Tells, seq-Tells, bind-Tells, pure-Tells, if-Tells, require-Tells, conformance_fail-Tells,
  for_each-Tells,
}
use minimum_tests.Headless.Block.Told.{
  is_block, told, mmio_write-Tells, mmio_read-Tells, check-Tells,
}

-- A command as the controller receives it, newest first.
abbrev pub requested : (unit operation lba sectors address : ℕ) → List Event → List Event
requested unit operation lba sectors address log =
    store block_command (u32 operation)
    ∷ store block_dma_paddr (u32 address)
    ∷ store block_sector_count (u32 sectors)
    ∷ store block_lba (u32 lba)
    ∷ store block_unit (u32 unit)
    ∷ log

abbrev pub acknowledged : List Event → List Event
acknowledged log = store block_ack 1 ∷ log

-- The buffer lies in the kernel's half of the address space.
abbrev pub IsBuffer : ℕ → Type 0
IsBuffer dma = (2 ^ 31 ≤ dma) × (dma + sector_size ≤ 2 ^ 32)

byte_elsewhere :
    (dma index : ℕ) → IsBuffer dma → index < sector_size → is_block (u32 (dma + index)) ≡ false
byte_elsewhere dma index h lt = ground arith

module _ {D : Type 0} ⦃bus : Bus D⦄ where
  pub poll_complete-Tells :
      (rounds : ℕ) → Tells {D = D} Unit told (poll_complete rounds) (λ log. log)
  unfolding poll_complete
  poll_complete-Tells zero = record { tells = λ s. waits tt s }
  poll_complete-Tells (suc rounds) = bind-Tells (mmio_read-Tells block_status) (λ status.
      if-Tells (bit_and status status_complete == 0) (poll_complete-Tells rounds) (pure-Tells tt))

  check_error-Tells : (expected : ℕ) → Tells {D = D} Unit told (check_error expected) (λ log. log)
  unfolding check_error trace_event
  check_error-Tells expected = bind-Tells (mmio_read-Tells block_error) (λ error.
      if-Tells (error != expected)
        (bind-Tells (mmio_read-Tells block_error) (λ again.
          seq-Tells (mmio_write-Tells trace_base (bit_or (bit_or 0xe0030000 (expected << 8)) again))
            (conformance_fail-Tells told (10 + expected))))
        (pure-Tells tt))

  pub wait_complete-Tells :
      (rounds expected : ℕ) → Tells {D = D} Unit told (wait_complete rounds expected) acknowledged
  unfolding wait_complete
  wait_complete-Tells rounds expected = seq-Tells (poll_complete-Tells rounds) (
      seq-Tells (check_error-Tells expected) (
        bind-Tells (mmio_read-Tells block_status) (λ status.
          seq-Tells
            (require-Tells told
              (same_truth (bit_and status status_error != 0) (expected != error_none))
              (20 + expected))
            (mmio_write-Tells block_ack 1))))

  pub command-Tells :
      (unit operation lba sectors address : ℕ)
      → Tells {D = D} Unit told
          (command unit operation lba sectors address)
          (requested unit operation lba sectors address)
  unfolding command set_parameters
  command-Tells unit operation lba sectors address = record { tells = λ s. returns _ _ refl }

  pub exact_command-Tells :
      (rounds unit operation lba sectors address expected : ℕ)
      → Tells {D = D} Unit told
          (exact_command rounds unit operation lba sectors address expected)
          (λ log. acknowledged (requested unit operation lba sectors address log))
  unfolding exact_command set_parameters block_exact_32
  exact_command-Tells rounds unit operation lba sectors address expected = record {
    tells = λ s. require-Ensures _ _ _ _ 6 _ _ (λ early.
        require-Ensures _ _ _ _ 7 _ _ (λ late. (wait_complete-Tells rounds expected).tells _));
  }

  pub expect-Tells :
      (dma value code : ℕ) → Tells {D = D} Unit told (expect dma value code) (λ log. log)
  unfolding expect
  expect-Tells dma value code =
      for_each-Tells told _ sector_size (λ index lt. check-Tells (u32 (dma + index)) value code)
        sector_size 0 (omega arith)

  pub check_set-Tells :
      (address mask code : ℕ) → Tells {D = D} Unit told (check_set address mask code) (λ log. log)
  unfolding check_set
  check_set-Tells address mask code =
      bind-Tells (mmio_read-Tells address)
        (λ value. require-Tells told (bit_and value mask != 0) code)

  pub check_clear-Tells :
      (address mask code : ℕ) → Tells {D = D} Unit told (check_clear address mask code) (λ log. log)
  unfolding check_clear
  check_clear-Tells address mask code =
      bind-Tells (mmio_read-Tells address)
        (λ value. require-Tells told (bit_and value mask == 0) code)

  module _ (dma : ℕ) (buffer : IsBuffer dma) where
    byte-Tells :
        (value index : ℕ)
        → index < sector_size
        → Tells {D = D} Unit told (mmio_write (u32 (dma + index)) value) (λ log. log)
    byte-Tells value index lt = record {
      tells = λ s. returns _ _ (rw (byte_elsewhere dma index buffer lt) refl);
    }

    pub fill-Tells : (value : ℕ) → Tells {D = D} Unit told (fill dma value) (λ log. log)
    unfolding fill
    fill-Tells value =
        for_each-Tells told _ sector_size (byte-Tells value) sector_size 0 (omega arith)

    pub replace-Tells : Tells {D = D} Unit told (replace dma) (λ log. log)
    unfolding replace
    replace-Tells =
        for_each-Tells told _ sector_size
          (λ index lt. seq-Tells (check-Tells (u32 (dma + index)) 0 2) (byte-Tells 0xa5 index lt))
          sector_size 0 (omega arith)
