-- ===== src/Headless/Block/Driver.antt =====
-- kernel/src/runtime/block.c, as headless/block uses it: what a transfer tells the controller.
use minimum_tests.Base.{ℕ, zero, suc, refl, bit_and, ◌==◌, ◌!=◌}
use minimum_tests.Machine.{Bus, mrs_cpsr, cpsid_i, cpsie_i}
use minimum_tests.Runtime.Block.{
  block_command, block_lba, block_sector_count, block_dma_paddr, block_status, block_error,
  block_ack, block_unit, status_complete, status_error, command_read, command_write, error_none,
  wait_complete, transfer, block_read, block_write,
}
use minimum_tests.Headless.Ensures.{waits, returns}
use minimum_tests.Headless.Block.Steps.{requested, acknowledged}
use minimum_tests.Headless.Tells.{Tells, seq-Tells, bind-Tells, pure-Tells, if-Tells}
use minimum_tests.Headless.Block.Told.{told, mmio_write-Tells, mmio_read-Tells}

module _ {D : Type 0} ⦃bus : Bus D⦄ where
  wait_complete-quiet : (rounds : ℕ) → Tells {D = D} Unit told (wait_complete rounds) (λ log. log)
  unfolding wait_complete
  wait_complete-quiet zero = record { tells = λ s. waits tt s }
  wait_complete-quiet (suc rounds) = bind-Tells (mmio_read-Tells block_status) (λ status.
      if-Tells (bit_and status status_complete == 0) (wait_complete-quiet rounds) (pure-Tells tt))

  cpsid_i-Tells : Tells {D = D} Unit told cpsid_i (λ log. log)
  cpsid_i-Tells = record { tells = λ s. returns _ _ refl }

  cpsie_i-Tells : Tells {D = D} Unit told cpsie_i (λ log. log)
  cpsie_i-Tells = record { tells = λ s. returns _ _ refl }

  mrs_cpsr-Tells : Tells {D = D} Unit told mrs_cpsr (λ log. log)
  mrs_cpsr-Tells = record { tells = λ s. returns _ _ refl }

  transfer-Tells :
      (rounds command unit lba sectors address : ℕ)
      → Tells {D = D} Unit told
          (transfer rounds command unit lba sectors address)
          (λ log. acknowledged (requested unit command lba sectors address log))
  unfolding transfer
  transfer-Tells rounds command unit lba sectors address = bind-Tells mrs_cpsr-Tells (λ cpsr.
      seq-Tells cpsid_i-Tells (
        seq-Tells (mmio_write-Tells block_unit unit) (
          seq-Tells (mmio_write-Tells block_lba lba) (
            seq-Tells (mmio_write-Tells block_sector_count sectors) (
              seq-Tells (mmio_write-Tells block_dma_paddr address) (
                seq-Tells (mmio_write-Tells block_command command) (
                  seq-Tells (wait_complete-quiet rounds) (
                    bind-Tells (mmio_read-Tells block_status) (λ status.
                      bind-Tells
                        (if-Tells (bit_and status status_error != 0) (mmio_read-Tells block_error)
                          (pure-Tells error_none))
                        (λ error. seq-Tells (mmio_write-Tells block_ack 1) (
                          seq-Tells
                            (if-Tells (bit_and cpsr 0x80 == 0) cpsie_i-Tells (pure-Tells tt))
                            (pure-Tells error))))))))))))

  pub block_read-Tells :
      (rounds unit lba sectors address : ℕ)
      → Tells {D = D} Unit told
          (block_read rounds unit lba sectors address)
          (λ log. acknowledged (requested unit command_read lba sectors address log))
  unfolding block_read
  block_read-Tells rounds = transfer-Tells rounds command_read

  pub block_write-Tells :
      (rounds unit lba sectors address : ℕ)
      → Tells {D = D} Unit told
          (block_write rounds unit lba sectors address)
          (λ log. acknowledged (requested unit command_write lba sectors address log))
  unfolding block_write
  block_write-Tells rounds = transfer-Tells rounds command_write
