-- ===== src/Headless/Block.antt =====
-- headless/block/main.c and headless/block-unattached/main.c: the controller by hand and through the
-- driver. The bytes of the DMA buffer are behind the bus, as the controller reads and writes them.
pub mod Told
pub mod Steps
pub mod Driver
pub mod Session
pub mod Unattached
mod Tests
use minimum_tests.Base.{
  ℕ, zero, suc, ◌+◌, ◌*◌, Bool, ◌&&◌, bit_and, bit_or, ◌==◌, ◌!=◌, same_truth, u32, ◌<<◌,
  if◌then◌else◌,
}
use minimum_tests.Machine.{Bus, Run, spinning, ◌>>=◌, ◌>>◌, pure, mmio_read, mmio_write}
use minimum_tests.Runtime.{trace_event, fail_stop, require, conformance_fail, test_paddr}
use minimum_tests.Runtime.Block.{
  block_command, block_lba, block_sector_count, block_dma_paddr, block_status, block_error,
  block_ack, block_unit, command_read, command_write, status_complete, status_error, error_none,
  block_read, block_write,
}
use minimum_tests.Platform.Registers.{
  interrupt_pending, interrupt_enable, interrupt_claim, interrupt_eoi, irq_block, block_control,
  status_busy, error_no_media, error_busy, error_invalid_command, error_invalid_dma,
  error_invalid_lba, error_invalid_unit, unit_filesystem, unit_swap, sector_size,
}
use minimum_tests.Headless.{check, check_set, check_clear, for_each}

module _ {D : Type 0} ⦃bus : Bus D⦄ where
  -- `while ((MINEMU_BLOCK->status & COMPLETE) == 0U)`, with a number of rounds.
  pub poll_complete : (rounds : ℕ) → Run D (Unit {0})
  poll_complete zero = spinning
  poll_complete (suc rounds) = do
    status ← mmio_read block_status
    let rest = poll_complete rounds
    if bit_and status status_complete == 0 then rest else pure tt

  -- An error code that is not the one expected is reported beside it.
  pub check_error : (expected : ℕ) → Run D (Unit {0})
  check_error expected = do
    error ← mmio_read block_error
    if error != expected
        then (do
          error ← mmio_read block_error
          trace_event (bit_or (bit_or 0xe0030000 (expected << 8)) error)
          conformance_fail (10 + expected))
        else pure tt

  pub wait_complete : (rounds expected : ℕ) → Run D (Unit {0})
  unfolding poll_complete check_error
  wait_complete rounds expected = do
    poll_complete rounds
    check_error expected
    status ← mmio_read block_status
    require (same_truth (bit_and status status_error != 0) (expected != error_none)) (20 + expected)
    mmio_write block_ack 1

  -- The parameters of a command; the store of the command starts it.
  pub set_parameters : (unit lba sectors address : ℕ) → Run D (Unit {0})
  set_parameters unit lba sectors address = do
    mmio_write block_unit unit
    mmio_write block_lba lba
    mmio_write block_sector_count sectors
    mmio_write block_dma_paddr address

  pub command : (unit operation lba sectors address : ℕ) → Run D (Unit {0})
  unfolding set_parameters
  command unit operation lba sectors address = do
    set_parameters unit lba sectors address
    mmio_write block_command operation

  -- deadline.S: the command, and the status one tick before its completion and at it.
  pub block_exact_32 : (operation : ℕ) → Run D (ℕ × ℕ)
  block_exact_32 operation = do
    mmio_write block_command operation
    early ← mmio_read block_status
    late ← mmio_read block_status
    pure (early, late)

  pub exact_command : (rounds unit operation lba sectors address expected : ℕ) → Run D (Unit {0})
  unfolding set_parameters block_exact_32 wait_complete
  exact_command rounds unit operation lba sectors address expected = do
    set_parameters unit lba sectors address
    (early, late) ← block_exact_32 operation
    require (early == status_busy) 6
    require (bit_and late status_busy == 0 && bit_and late status_complete != 0) 7
    wait_complete rounds expected

  -- The loops over the buffer: all bytes stored, or all bytes checked.
  pub fill : (dma value : ℕ) → Run D (Unit {0})
  fill dma value = for_each (λ index. mmio_write (u32 (dma + index)) value) sector_size 0

  pub expect : (dma value code : ℕ) → Run D (Unit {0})
  expect dma value code = for_each (λ index. check (u32 (dma + index)) value code) sector_size 0

  -- The first loop checks each byte and stores it anew.
  pub replace : (dma : ℕ) → Run D (Unit {0})
  replace dma =
      for_each (λ index. do check (u32 (dma + index)) 0 2; mmio_write (u32 (dma + index)) 0xa5)
        sector_size 0

  -- Both units are written and read back.
  pub check_units : (rounds dma : ℕ) → Run D (Unit {0})
  unfolding exact_command fill expect replace
  check_units rounds dma = do
    let address = test_paddr dma
    check block_unit unit_filesystem 1
    exact_command rounds unit_filesystem command_read 0 1 address error_none
    replace dma
    exact_command rounds unit_filesystem command_write 1 1 address error_none
    fill dma 0x5a
    exact_command rounds unit_swap command_write 1 1 address error_none
    fill dma 0
    exact_command rounds unit_filesystem command_read 1 1 address error_none
    expect dma 0xa5 4
    exact_command rounds unit_swap command_read 1 1 address error_none
    expect dma 0x5a 8

  pub check_errors : (rounds dma : ℕ) → Run D (Unit {0})
  unfolding exact_command
  check_errors rounds dma = do
    let address = test_paddr dma
    exact_command rounds unit_filesystem 99 0 1 address error_invalid_command
    exact_command rounds unit_filesystem command_read 0 1 (u32 (address + 1)) error_invalid_dma
    exact_command rounds unit_filesystem command_read 2 1 address error_invalid_lba
    exact_command rounds 2 command_read 0 1 address error_invalid_unit

  -- A second command while the first is under way is refused and leaves the first alone.
  pub check_busy : (rounds dma : ℕ) → Run D (Unit {0})
  unfolding command wait_complete fill expect
  check_busy rounds dma = do
    fill dma 0
    command unit_filesystem command_read 1 1 (test_paddr dma)
    mmio_write block_unit unit_swap
    mmio_write block_command command_read
    check block_error error_busy 5
    mmio_write block_ack 1
    wait_complete rounds error_none
    check block_unit unit_swap 9
    expect dma 0xa5 11

  -- One round of the loop over the units.
  pub check_irq : (rounds dma unit : ℕ) → Run D (Unit {0})
  unfolding command poll_complete
  check_irq rounds dma unit = do
    command unit command_read 0 1 (test_paddr dma)
    poll_complete rounds
    check_set interrupt_pending (1 << irq_block) (30 + unit * 3)
    check interrupt_claim irq_block (31 + unit * 3)
    mmio_write block_ack 1
    mmio_write interrupt_eoi irq_block
    check_clear interrupt_pending (1 << irq_block) (32 + unit * 3)

  pub check_irqs : (rounds dma : ℕ) → Run D (Unit {0})
  unfolding check_irq
  check_irqs rounds dma = do
    mmio_write interrupt_enable (1 << irq_block)
    mmio_write block_control 1
    for_each (check_irq rounds dma) 2 unit_filesystem

  pub check_driver : (rounds dma : ℕ) → Run D (Unit {0})
  unfolding fill expect
  check_driver rounds dma = do
    fill dma 0x3c
    error ← block_write rounds unit_swap 0 1 (test_paddr dma)
    require (error == error_none) 40
    fill dma 0
    error ← block_read rounds unit_swap 0 1 (test_paddr dma)
    require (error == error_none) 41
    expect dma 0x3c 42
    error ← block_read rounds 2 0 1 (test_paddr dma)
    require (error == error_invalid_unit) 43
    check_clear block_status (bit_or status_complete status_error) 44

  pub checks : (rounds dma : ℕ) → Run D (Unit {0})
  unfolding check_units check_errors check_busy check_irqs check_driver
  checks rounds dma = do
    check_units rounds dma
    check_errors rounds dma
    check_busy rounds dma
    check_irqs rounds dma
    check_driver rounds dma

  pub block_main : (rounds dma : ℕ) → Run D (Unit {0})
  unfolding checks trace_event fail_stop
  block_main rounds dma = do checks rounds dma; trace_event 0x20030001; fail_stop

  -- headless/block-unattached/main.c
  pub unattached_main : (dma : ℕ) → Run D (Unit {0})
  unfolding set_parameters block_exact_32 trace_event fail_stop
  unattached_main dma = do
    set_parameters unit_swap 0 1 (test_paddr dma)
    (early, late) ← block_exact_32 command_read
    require (early == status_busy) 1
    require (bit_and late status_complete != 0) 2
    check block_error error_no_media 3
    mmio_write block_ack 1
    trace_event 0x20030002
    fail_stop
