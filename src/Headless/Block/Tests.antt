-- ===== src/Headless/Block/Tests.antt =====
-- The block cases on devices that answer as the cases expect.
use minimum_tests.Base.{
  ltb, leb, ◌-◌, ◌%◌, ◌==◌, ◌!=◌, ◌&&◌, if◌then◌else◌, bit_and, ℕ, ◌≡◌, refl, arith, List, [], ◌∷◌,
}
use minimum_tests.Machine.{Bus, Machine, Event, store}
use minimum_tests.Machine.Sample.{last_report}
use minimum_tests.Runtime.Block
use minimum_tests.Runtime.Block.{
  block_command, block_lba, block_dma_paddr, block_status, block_error, block_ack, block_unit,
  transfer, block_read, block_write,
}
use minimum_tests.Platform.Registers.{interrupt_pending, interrupt_claim}
use minimum_tests.Runtime.{
  trace_base, test_paddr, require, conformance_fail, trace_event, fail_stop,
}
use minimum_tests.Headless.Ensures.{Ensures}
use minimum_tests.Headless.{check, check_set, check_clear, for_each}
use minimum_tests.Headless.Block.{
  block_main, checks, check_units, check_errors, check_busy, check_irq, check_irqs, check_driver,
  exact_command, command, set_parameters, block_exact_32, wait_complete, poll_complete, check_error,
  fill, expect, replace,
}
use minimum_tests.Headless.Block.Told.{told}
use minimum_tests.Headless.Block.Session.{session, block_main-IsSession}

abbrev dma : ℕ
dma = 0x80010000

-- A controller with two disks of two sectors each, whose bytes are all alike. It is busy until its
-- status is first looked at.
record Controller : Type 0 where
  unit : ℕ
  lba : ℕ
  address : ℕ
  status : ℕ
  outcome : ℕ
  error : ℕ
  pending_error : ℕ
  buffer : ℕ → ℕ
  disk : ℕ → ℕ → ℕ

abbrev fault_of : (operation : ℕ) → Controller → ℕ
fault_of operation c =
    if ltb 2 operation
    then 3
    else if c.address % 512 != 0
    then 4
    else if ltb 1 c.lba
    then 5
    else if ltb 1 c.unit
    then 7
    else 0

abbrev moved : (operation : ℕ) → Controller → Controller
moved operation c =
    if operation == 1
    then record c { buffer = λ index. c.disk c.unit c.lba }
    else (let byte = c.buffer 0 in
        record c {
          disk = λ unit lba. if unit == c.unit && lba == c.lba then byte else c.disk unit lba;
        })

abbrev started : (operation : ℕ) → Controller → Controller
started operation c =
    let fault = fault_of operation c in
    if fault == 0
    then record (moved operation c) { status = 1; outcome = 2; pending_error = 0 }
    else record c { status = 1; outcome = 6; pending_error = fault }

abbrev controller_read : Controller → ℕ → ℕ × Controller
controller_read c a =
    if a == block_status
    then (
      c.status,
      if c.status == 1 then record c { status = c.outcome; error = c.pending_error } else c,
    )
    else (
      if a == block_error
          then c.error
          else if a == block_unit
          then c.unit
          else if a == interrupt_pending
          then (if bit_and c.status 2 == 0 then 0 else 8)
          else if a == interrupt_claim
          then (if bit_and c.status 2 == 0 then 0xffffffff else 3)
          else c.buffer (a - dma),
      c,
    )

abbrev controller_write : Controller → ℕ → ℕ → Controller
controller_write c a v =
    if leb dma a
    then record c { buffer = λ index. if index == a - dma then v else c.buffer index }
    else if a == block_unit
    then record c { unit = v }
    else if a == block_lba
    then record c { lba = v }
    else if a == block_dma_paddr
    then record c { address = v }
    else if a == block_command
    then (if c.status == 1 then record c { error = 2 } else started v c)
    else if a == block_ack
    then (if c.status == 1 then record c { error = 0 } else record c { status = 0; error = 0 })
    else c

instance abbrev controller : Bus Controller
controller = record {
  read = controller_read;
  write = controller_write;
  control = λ c event. c;
  dfsr = λ c. 0;
  dfar = λ c. 0;
}

abbrev fresh : Machine Controller
fresh = record {
  devices = record {
    unit = 0;
    lba = 0;
    address = 0;
    status = 0;
    outcome = 0;
    error = 0;
    pending_error = 0;
    buffer = λ index. 0;
    disk = λ unit lba. 0;
  };
  cpsr = 0xd3;
  log = [];
}

-- On this controller the case succeeds.
succeeds : last_report (block_main 3 dma fresh) ≡ 0x20030001
unfolding block_main checks check_units check_errors check_busy check_irq check_irqs check_driver
    exact_command command set_parameters block_exact_32 wait_complete poll_complete check_error fill
    expect replace check check_set check_clear for_each Block.wait_complete transfer block_read
    block_write require conformance_fail trace_event fail_stop test_paddr
succeeds = refl

block_main-IsSession_example :
    Ensures Unit
      (λ t.
        (told t.log ≡ session (test_paddr dma) (told []))
        × (log : List Event) × (t.log ≡ store trace_base 0x20030001 ∷ log))
      (λ done t. ⊥)
      (block_main 3 dma fresh)
block_main-IsSession_example = block_main-IsSession 3 dma (omega arith, omega arith) fresh
