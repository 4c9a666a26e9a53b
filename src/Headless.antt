-- ===== src/Headless.antt =====
-- The focused conformance programs under headless: scripts of assertions on devices.
pub mod Ensures
pub mod Tells
pub mod RngTrace
pub mod Uart
pub mod Interrupts
pub mod Exceptions
pub mod Mmu
pub mod Block
pub mod TtbrSwitch
mod Tests
use minimum_tests.Base.{ℕ, zero, suc, ◌+◌, Bool, ◌∷◌, bit_and, bit_or, ◌==◌, ◌!=◌, if◌then◌else◌}
use minimum_tests.Machine.{
  Machine, load, stored, Bus, Run, spinning, ◌>>=◌, ◌>>◌, pure, mmio_read, mmio_write,
}
use minimum_tests.Runtime.{trace_event, fail_stop, require}

abbrev pub rng_seed : ℕ
rng_seed = 0x10003000

abbrev pub rng_data : ℕ
rng_data = 0x10003004

abbrev pub rng_state : ℕ
rng_state = 0x10003008

abbrev pub uart0 : ℕ
uart0 = 0x10004000

abbrev pub uart1 : ℕ
uart1 = 0x10005000

-- The directory that the firmware has set up, in the kernel's direct map.
abbrev pub root_table : ℕ
root_table = 0xc0010000

-- The registers of a UART, from its base.
abbrev pub rx_data : ℕ → ℕ
rx_data uart = uart

abbrev pub tx_data : ℕ → ℕ
tx_data uart = uart + 4

abbrev pub status : ℕ → ℕ
status uart = uart + 8

abbrev pub control : ℕ → ℕ
control uart = uart + 12

abbrev pub rx_ready : ℕ
rx_ready = 1

abbrev pub tx_ready : ℕ
tx_ready = 2

-- `for (i = from; i < from + count; ++i) body`
pub for_each : {D : Type 0} → (body : ℕ → Run D (Unit {0})) (count from : ℕ) → Run D (Unit {0})
for_each body zero from = pure tt
for_each body (suc count) from = do body from; for_each body count (from + 1)

module _ {D : Type 0} ⦃bus : Bus D⦄ where
  -- `MINEMU_REQUIRE(register == expected, code)`
  pub check : (address expected code : ℕ) → Run D (Unit {0})
  check address expected code = do value ← mmio_read address; require (value == expected) code

  -- `MINEMU_REQUIRE((register & mask) != 0, code)`
  pub check_set : (address mask code : ℕ) → Run D (Unit {0})
  check_set address mask code = do value ← mmio_read address; require (bit_and value mask != 0) code

  -- `MINEMU_REQUIRE((register & mask) == 0, code)`
  pub check_clear : (address mask code : ℕ) → Run D (Unit {0})
  check_clear address mask code = do
    value ← mmio_read address
    require (bit_and value mask == 0) code

  -- A word that is read, and the machine after it.
  abbrev pub word_at : (address : ℕ) → Machine D → ℕ
  word_at address s = (bus.read s.devices address).0

  abbrev pub loaded : (address : ℕ) → Machine D → Machine D
  loaded address s = record s {
    devices = (bus.read s.devices address).1;
    log = load address (word_at address s) ∷ s.log;
  }

  -- A flag is added to a page entry.
  abbrev pub flagged : (pte flag : ℕ) → Machine D → Machine D
  flagged pte flag s = stored pte (bit_or (word_at pte s) flag) (loaded pte s)

  -- `*word |= flag`
  pub set_flag : (address flag : ℕ) → Run D (Unit {0})
  set_flag address flag = do word ← mmio_read address; mmio_write address (bit_or word flag)

  -- `*word &= mask`
  pub keep_flags : (address mask : ℕ) → Run D (Unit {0})
  keep_flags address mask = do word ← mmio_read address; mmio_write address (bit_and word mask)

  -- headless/rng-trace/main.c
  pub rng_checks : Run D (Unit {0})
  rng_checks = do
    check rng_seed 0x4d454d55 1
    check rng_state 0x4d454d55 2
    check rng_data 0x791c7b62 3
    check rng_data 0x38784b1a 4
    check rng_seed 0x4d454d55 5
    check rng_state 0x38784b1a 6
    mmio_write rng_seed 0
    check rng_seed 0x4d454d55 7
    check rng_state 0x4d454d55 8
    mmio_write rng_seed 0x12345678
    check rng_seed 0x12345678 9
    check rng_state 0x12345678 10
    check rng_data 0x87985aa5 11
    check rng_data 0x155b24a3 12
    check rng_seed 0x12345678 13
    check rng_state 0x155b24a3 14

  pub rng_trace_main : Run D (Unit {0})
  unfolding rng_checks trace_event fail_stop
  rng_trace_main = do
    rng_checks
    trace_event 0x20020001
    trace_event 0x20020002
    trace_event 0x20020003
    fail_stop

  -- The poll of `receive`, with a number of rounds.
  pub wait_rx : (rounds uart : ℕ) → Run D (Unit {0})
  wait_rx zero uart = spinning
  wait_rx (suc rounds) uart = do
    value ← mmio_read (status uart)
    let rest = wait_rx rounds uart
    if bit_and value rx_ready == 0 then rest else pure tt

  -- headless/uart/main.c
  pub receive : (rounds uart : ℕ) → Run D ℕ
  receive rounds uart = do wait_rx rounds uart; mmio_read (rx_data uart)

  pub uart_main : (rounds : ℕ) → Run D (Unit {0})
  unfolding trace_event fail_stop
  uart_main rounds = do
    check_set (status uart0) tx_ready 1
    check_set (status uart1) tx_ready 2
    first ← receive rounds uart0
    second ← receive rounds uart1
    require (first == 65) 3
    require (second == 66) 4
    check_clear (status uart0) rx_ready 5
    check_clear (status uart1) rx_ready 6
    mmio_write (tx_data uart0) first
    mmio_write (tx_data uart1) second
    trace_event 0x20010001
    fail_stop
