-- ===== src/Headless/Interrupts/Main/Session.antt =====
-- headless/interrupts: all dealings of the C code with the interrupt controller in a success.
use minimum_tests.Base.{ℕ, ◌≡◌, refl, List, ◌∷◌}
use minimum_tests.Machine.{Bus, Event, store, Machine}
use minimum_tests.Runtime.{trace_base, trace_event, fail_stop}
use minimum_tests.Platform.Registers.{
  interrupt_enable, priority_uart0, priority_uart1, irq_systick, irq_uart0, irq_uart1, irq_none,
  uart_control_rx_irq_enable,
}
use minimum_tests.Platform.TrapFrame.{TrapFrame}
use minimum_tests.Headless.{uart0, uart1, control}
use minimum_tests.Headless.Ensures.{
  Ensures, returns, passes, bind-Ensures, require-Ensures, require_last-Ensures,
}
use minimum_tests.Headless.Tells.{Tells, seq-Tells}
use minimum_tests.Headless.Interrupts.Main.{
  start_timer, claim_timer, claim_by_priority, claim_by_number, take_irqs, checks, check_periodic,
  arm_uarts, wait_uarts, systick_exact_128, systick_exact_64, kernel_main,
}
use minimum_tests.Headless.Interrupts.Main.Dealt.{
  dealt, claimed, ended, mmio_write-Tells, require_claim-Tells, finish-Tells, wait_uart-Tells,
}
use minimum_tests.Headless.Interrupts.Main.Served.{take_irqs-Ends}

abbrev pub prioritised : (first second : ℕ) → List Event → List Event
prioritised first second log = store priority_uart1 second ∷ store priority_uart0 first ∷ log

-- The claims by hand, newest first: the timer; UART 1 before UART 0, by their priorities; UART 0
-- before UART 1, by their numbers; then none.
abbrev pub timer_claimed : List Event → List Event
timer_claimed log = ended 0 (claimed 0 (claimed 0 (store interrupt_enable 7 ∷ log)))

abbrev pub priority_claimed : List Event → List Event
priority_claimed log = ended 1 (claimed 1 (ended 2 (claimed 2 (claimed 2 (prioritised 10 5 log)))))

abbrev pub number_claimed : List Event → List Event
number_claimed log =
    claimed irq_none (ended 2 (claimed 2 (ended 1 (claimed 1 (prioritised 7 7 log)))))

-- Behind them the two interrupts: UART 1 before UART 0, by their priorities.
abbrev pub all_dealings : List Event → List Event
all_dealings log =
    ended 1 (ended 2 (prioritised 9 3 (number_claimed (priority_claimed (timer_claimed log)))))

module _ {D : Type 0} ⦃bus : Bus D⦄ where
  start_timer-Tells : Tells {D = D} Unit dealt start_timer (λ log. log)
  unfolding start_timer systick_exact_128
  start_timer-Tells = record {
    tells = λ s.
        require-Ensures _ _ _ _ 1 _ _ (λ early. require_last-Ensures _ _ _ _ 13 _ (λ late. refl));
  }

  check_periodic-Tells : Tells {D = D} Unit dealt check_periodic (λ log. log)
  unfolding check_periodic systick_exact_64
  check_periodic-Tells = record {
    tells = λ s. require-Ensures _ _ _ _ 14 _ _ (λ samples. returns _ _ refl);
  }

  wait_uarts-Tells : (rounds : ℕ) → Tells {D = D} Unit dealt (wait_uarts rounds) (λ log. log)
  unfolding wait_uarts
  wait_uarts-Tells rounds =
      seq-Tells (wait_uart-Tells rounds uart0 refl) (wait_uart-Tells rounds uart1 refl)

  claim_timer-Tells : (rounds : ℕ) → Tells {D = D} Unit dealt (claim_timer rounds) timer_claimed
  unfolding claim_timer
  claim_timer-Tells rounds = seq-Tells (wait_uarts-Tells rounds) (
      seq-Tells (mmio_write-Tells (control uart0) uart_control_rx_irq_enable) (
        seq-Tells (mmio_write-Tells (control uart1) uart_control_rx_irq_enable) (
          seq-Tells (mmio_write-Tells interrupt_enable 7) (
            seq-Tells (require_claim-Tells irq_systick 2)
              (seq-Tells (require_claim-Tells irq_systick 3) (finish-Tells irq_systick))))))

  claim_by_priority-Tells : Tells {D = D} Unit dealt claim_by_priority priority_claimed
  unfolding claim_by_priority
  claim_by_priority-Tells = seq-Tells (mmio_write-Tells priority_uart0 10) (
      seq-Tells (mmio_write-Tells priority_uart1 5) (
        seq-Tells (require_claim-Tells irq_uart1 4) (
          seq-Tells (require_claim-Tells irq_uart1 5) (
            seq-Tells (finish-Tells irq_uart1)
              (seq-Tells (require_claim-Tells irq_uart0 6) (finish-Tells irq_uart0))))))

  claim_by_number-Tells :
      (rounds : ℕ) → Tells {D = D} Unit dealt (claim_by_number rounds) number_claimed
  unfolding claim_by_number
  claim_by_number-Tells rounds = seq-Tells (wait_uarts-Tells rounds) (
      seq-Tells (mmio_write-Tells priority_uart0 7) (
        seq-Tells (mmio_write-Tells priority_uart1 7) (
          seq-Tells (require_claim-Tells irq_uart0 7) (
            seq-Tells (finish-Tells irq_uart0) (
              seq-Tells (require_claim-Tells irq_uart1 8)
                (seq-Tells (finish-Tells irq_uart1) (require_claim-Tells irq_none 9)))))))

  arm_uarts-Tells : (rounds : ℕ) → Tells {D = D} Unit dealt (arm_uarts rounds) (prioritised 9 3)
  unfolding arm_uarts
  arm_uarts-Tells rounds =
      seq-Tells (wait_uarts-Tells rounds)
        (seq-Tells (mmio_write-Tells priority_uart0 9) (mmio_write-Tells priority_uart1 3))

  take_irqs-Tells :
      (rounds : ℕ) (while_waiting : ℕ → List TrapFrame) (at_mask : List TrapFrame)
      → Tells {D = D} Unit dealt
          (take_irqs rounds while_waiting at_mask)
          (λ log. ended 1 (ended 2 log))
  take_irqs-Tells rounds while_waiting at_mask = record {
    tells = take_irqs-Ends rounds while_waiting at_mask;
  }

  checks-Tells :
      (rounds : ℕ) (while_waiting : ℕ → List TrapFrame) (at_mask : List TrapFrame)
      → Tells {D = D} Unit dealt (checks rounds while_waiting at_mask) all_dealings
  unfolding checks
  checks-Tells rounds while_waiting at_mask = seq-Tells start_timer-Tells (
      seq-Tells (claim_timer-Tells rounds) (
        seq-Tells claim_by_priority-Tells (
          seq-Tells (claim_by_number-Tells rounds) (
            seq-Tells check_periodic-Tells (
              seq-Tells (arm_uarts-Tells rounds) (take_irqs-Tells rounds while_waiting at_mask))))))

  -- On any devices, any interrupts and any number of rounds, the case stops behind the report of a
  -- failed assertion, is left in a poll, or stops behind its success value. Then all dealings of its
  -- C code with the interrupt controller are these, in this order: the timer was claimed twice before its
  -- end, then UART 1 and UART 0 with the smaller number for the more urgent, then UART 0 and UART 1
  -- at equal priorities, then nothing; and at the end one interrupt of UART 1 was ended and then
  -- one of UART 0.
  pub kernel_main-AllDealings :
      (rounds : ℕ) (while_waiting : ℕ → List TrapFrame) (at_mask : List TrapFrame) (s : Machine D)
      → Ensures Unit
          (λ t.
            (dealt t.log ≡ all_dealings (dealt s.log))
            × (log : List Event) × (t.log ≡ store trace_base 0x20050001 ∷ log))
          (λ done t. ⊥)
          (kernel_main rounds while_waiting at_mask s)
  unfolding kernel_main trace_event fail_stop
  kernel_main-AllDealings rounds while_waiting at_mask s =
      bind-Ensures _ _ _ _ _ _ (λ w. w) ((checks-Tells rounds while_waiting at_mask).tells s)
        (λ done t e. passes _ (e, t.log, refl))
