-- ===== src/Runtime/Block.antt =====
-- kernel/src/runtime/block.c: the synchronous block driver.
pub mod Transfer
use minimum_tests.Base.{ℕ, zero, suc, ◌+◌, bit_and, ◌==◌, ◌!=◌, if◌then◌else◌}
use minimum_tests.Machine.{
  Bus, Run, spinning, pure, ◌>>=◌, ◌>>◌, mmio_read, mmio_write, mrs_cpsr, cpsid_i, cpsie_i,
}

-- platform.h: the registers, and the values that the driver uses.
abbrev pub block_command : ℕ
block_command = 0x10002000

abbrev pub block_lba : ℕ
block_lba = 0x10002004

abbrev pub block_sector_count : ℕ
block_sector_count = 0x10002008

abbrev pub block_dma_paddr : ℕ
block_dma_paddr = 0x1000200c

abbrev pub block_status : ℕ
block_status = 0x10002010

abbrev pub block_error : ℕ
block_error = 0x10002014

abbrev pub block_ack : ℕ
block_ack = 0x10002018

abbrev pub block_unit : ℕ
block_unit = 0x10002020

abbrev pub command_read : ℕ
command_read = 1

abbrev pub command_write : ℕ
command_write = 2

abbrev pub status_complete : ℕ
status_complete = 2

abbrev pub status_error : ℕ
status_error = 4

abbrev pub error_none : ℕ
error_none = 0

module _ {D : Type 0} ⦃bus : Bus D⦄ where
  -- `while ((MINEMU_BLOCK->status & COMPLETE) == 0)`, with a number of rounds.
  unfoldable pub wait_complete : ℕ → Run D (Unit {0})
  wait_complete zero = spinning
  wait_complete (suc rounds) = do
    status ← mmio_read block_status
    let rest = wait_complete rounds
    if bit_and status status_complete == 0 then rest else pure tt

  unfoldable pub transfer : (rounds command unit lba sector_count dma_paddr : ℕ) → Run D ℕ
  unfolding wait_complete
  transfer rounds command unit lba sector_count dma_paddr = do
    cpsr ← mrs_cpsr
    cpsid_i
    mmio_write block_unit unit
    mmio_write block_lba lba
    mmio_write block_sector_count sector_count
    mmio_write block_dma_paddr dma_paddr
    mmio_write block_command command
    wait_complete rounds
    status ← mmio_read block_status
    error ← (if bit_and status status_error != 0 then mmio_read block_error else pure error_none)
    mmio_write block_ack 1
    if bit_and cpsr 0x80 == 0 then cpsie_i else pure tt
    pure error

  unfoldable pub block_read : (rounds unit lba sector_count dma_paddr : ℕ) → Run D ℕ
  unfolding transfer
  block_read rounds unit lba sector_count dma_paddr =
      transfer rounds command_read unit lba sector_count dma_paddr

  unfoldable pub block_write : (rounds unit lba sector_count dma_paddr : ℕ) → Run D ℕ
  unfolding transfer
  block_write rounds unit lba sector_count dma_paddr =
      transfer rounds command_write unit lba sector_count dma_paddr
