-- ===== src/Headless/Interrupts/Main.antt =====
-- headless/interrupts/main.c: the script, on a processor that takes interrupts in its last wait.
pub mod Dealt
pub mod Served
pub mod Session
mod Tests
use minimum_tests.Base.{
  ℕ, zero, suc, ◌+◌, Bool, List, [], ◌∷◌, bit_and, bit_or, ltb, u32, ◌==◌, ◌!=◌, ◌<<◌,
  if◌then◌else◌,
}
use minimum_tests.Machine.{
  Bus, Run, spinning, ◌>>=◌, ◌>>◌, pure, mmio_read, mmio_write, cpsid_i, cpsie_i, in_exception,
}
use minimum_tests.Runtime.{trace_event, fail_stop, require}
use minimum_tests.Platform.Registers.{
  interrupt_enable, priority_uart0, priority_uart1, irq_systick, irq_uart0, irq_uart1, irq_none,
  systick_period, systick_control, systick_status, systick_ack, systick_control_enable,
  systick_control_periodic, systick_control_irq_enable, systick_status_pending,
  uart_control_rx_irq_enable,
}
use minimum_tests.Platform.TrapFrame.{TrapFrame}
use minimum_tests.Headless.{uart0, uart1, status, control, rx_ready}
use minimum_tests.Headless.Interrupts.{Irqs, irq_dispatch, claim, finish}

abbrev pub no_irqs : Irqs
no_irqs = record { irq_count = 0; irq_order = λ index. 0 }

module _ {D : Type 0} ⦃bus : Bus D⦄ where
  -- The poll of `wait_uart`, with a number of rounds.
  pub wait_uart : (rounds uart : ℕ) → Run D (Unit {0})
  wait_uart zero uart = spinning
  wait_uart (suc rounds) uart = do
    value ← mmio_read (status uart)
    let rest = wait_uart rounds uart
    if bit_and value rx_ready == 0 then rest else pure tt

  -- deadlines.S: the timer is started, and its status read one tick before its period and at it.
  pub systick_exact_128 : (control : ℕ) → Run D (ℕ × ℕ)
  systick_exact_128 control = do
    mmio_write systick_control control
    early ← mmio_read systick_status
    late ← mmio_read systick_status
    pure (early, late)

  -- Two periods, with an acknowledgement between them; one byte for each status.
  pub systick_exact_64 : (control : ℕ) → Run D ℕ
  systick_exact_64 control = do
    mmio_write systick_control control
    first ← mmio_read systick_status
    second ← mmio_read systick_status
    mmio_write systick_ack 1
    third ← mmio_read systick_status
    fourth ← mmio_read systick_status
    pure (bit_or (bit_or (bit_or first (second << 8)) (third << 16)) (fourth << 24))

  -- `MINEMU_REQUIRE(claim() == source, code)`
  pub require_claim : (source code : ℕ) → Run D (Unit {0})
  unfolding claim
  require_claim source code = do claimed ← claim; require (claimed == source) code

  pub wait_uarts : (rounds : ℕ) → Run D (Unit {0})
  unfolding wait_uart
  wait_uarts rounds = do wait_uart rounds uart0; wait_uart rounds uart1

  pub start_timer : Run D (Unit {0})
  unfolding systick_exact_128
  start_timer = do
    cpsid_i
    mmio_write systick_period 128
    (early, late) ← systick_exact_128 (bit_or systick_control_enable systick_control_irq_enable)
    require (early == 0) 1
    require (late == systick_status_pending) 13

  -- Claims by hand: the timer first, then the UARTs by their priorities, then by their numbers.
  pub claim_timer : (rounds : ℕ) → Run D (Unit {0})
  unfolding wait_uarts require_claim finish
  claim_timer rounds = do
    wait_uarts rounds
    mmio_write (control uart0) uart_control_rx_irq_enable
    mmio_write (control uart1) uart_control_rx_irq_enable
    mmio_write interrupt_enable 7
    require_claim irq_systick 2
    require_claim irq_systick 3
    finish irq_systick

  pub claim_by_priority : Run D (Unit {0})
  unfolding require_claim finish
  claim_by_priority = do
    mmio_write priority_uart0 10
    mmio_write priority_uart1 5
    require_claim irq_uart1 4
    require_claim irq_uart1 5
    finish irq_uart1
    require_claim irq_uart0 6
    finish irq_uart0

  pub claim_by_number : (rounds : ℕ) → Run D (Unit {0})
  unfolding wait_uarts require_claim finish
  claim_by_number rounds = do
    wait_uarts rounds
    mmio_write priority_uart0 7
    mmio_write priority_uart1 7
    require_claim irq_uart0 7
    finish irq_uart0
    require_claim irq_uart1 8
    finish irq_uart1
    require_claim irq_none 9

  pub check_periodic : Run D (Unit {0})
  unfolding systick_exact_64
  check_periodic = do
    mmio_write systick_period 64
    samples ← systick_exact_64 (bit_or systick_control_enable systick_control_periodic)
    require (samples == 0x01000100) 14
    mmio_write systick_ack 1

  pub arm_uarts : (rounds : ℕ) → Run D (Unit {0})
  unfolding wait_uarts
  arm_uarts rounds = do wait_uarts rounds; mmio_write priority_uart0 9; mmio_write priority_uart1 3

  -- The interrupts that the processor takes, by their frames.
  pub serve : List TrapFrame → Irqs → Run D Irqs
  serve [] t = pure t
  serve (frame ∷ frames) t = in_exception (irq_dispatch frame t) >>= serve frames

  -- `while (irq_count < 2U)`, with a number of rounds; interrupts come between the tests.
  pub wait_irqs : (rounds : ℕ) (while_waiting : ℕ → List TrapFrame) → Irqs → Run D Irqs
  unfolding serve
  wait_irqs zero while_waiting t = spinning
  wait_irqs (suc rounds) while_waiting t =
      let rest = serve (while_waiting rounds) t >>= wait_irqs rounds while_waiting in
      if ltb t.irq_count 2 then rest else pure t

  -- `at_mask` come before IRQ is masked behind the wait.
  pub take_irqs :
      (rounds : ℕ) (while_waiting : ℕ → List TrapFrame) (at_mask : List TrapFrame)
      → Run D (Unit {0})
  unfolding wait_irqs serve
  take_irqs rounds while_waiting at_mask = do
    cpsie_i
    t ← wait_irqs rounds while_waiting no_irqs
    t ← serve at_mask t
    cpsid_i
    require (t.irq_order 0 == irq_uart1) 11
    require (t.irq_order 1 == irq_uart0) 12

  pub checks :
      (rounds : ℕ) (while_waiting : ℕ → List TrapFrame) (at_mask : List TrapFrame)
      → Run D (Unit {0})
  unfolding start_timer claim_timer claim_by_priority claim_by_number check_periodic arm_uarts
      take_irqs
  checks rounds while_waiting at_mask = do
    start_timer
    claim_timer rounds
    claim_by_priority
    claim_by_number rounds
    check_periodic
    arm_uarts rounds
    take_irqs rounds while_waiting at_mask

  pub kernel_main :
      (rounds : ℕ) (while_waiting : ℕ → List TrapFrame) (at_mask : List TrapFrame)
      → Run D (Unit {0})
  unfolding checks trace_event fail_stop
  kernel_main rounds while_waiting at_mask = do
    checks rounds while_waiting at_mask
    trace_event 0x20050001
    fail_stop
