-- ===== src/Headless/Interrupts/Main/Tests.antt =====
-- The script on devices that answer as the case expects.
use minimum_tests.Base.{ℕ, ◌≡◌, refl, List, ◌∷◌, []}
use minimum_tests.Machine.{Event, store}
use minimum_tests.Machine.Sample.{scripted, answering, last_report}
use minimum_tests.Runtime.{trace_base, require, conformance_fail, trace_event, fail_stop}
use minimum_tests.Platform.TrapFrame.{TrapFrame}
use minimum_tests.Headless.Ensures.{Ensures}
use minimum_tests.Headless.Interrupts.{irq_dispatch, claim, finish}
use minimum_tests.Headless.Interrupts.Main.{
  kernel_main, checks, start_timer, claim_timer, claim_by_priority, claim_by_number, check_periodic,
  arm_uarts, take_irqs, wait_irqs, serve, wait_uarts, wait_uart, require_claim, systick_exact_128,
  systick_exact_64,
}
use minimum_tests.Headless.Interrupts.Main.Dealt.{dealt}
use minimum_tests.Headless.Interrupts.Main.Session.{all_dealings, kernel_main-AllDealings}

abbrev from : (source : ℕ) → TrapFrame
from source = record {
  r = λ index. 0;
  return_lr = 0;
  spsr = 0x13;
  exception_id = source;
  fault_pc = 0;
  dfsr = 0;
  dfar = 0;
  user_sp = 0;
  user_lr = 0;
  reserved = 0;
}

-- The samples of the timer, the polls, the claims with the bytes taken, and the samples again; then
-- the polls, and the bytes of the two interrupts.
abbrev answers : List ℕ
answers =
    0 ∷ 1 ∷ 1 ∷ 1 ∷ 0 ∷ 0 ∷ 2 ∷ 2 ∷ 65 ∷ 1 ∷ 66 ∷ 1 ∷ 1 ∷ 1 ∷ 65 ∷ 2 ∷ 66 ∷ 0xffffffff ∷ 0 ∷ 1 ∷ 0
    ∷ 1 ∷ 1 ∷ 1 ∷ 65 ∷ 66 ∷ []

kernel_main-AllDealings_example :
    Ensures Unit
      (λ t.
        (dealt t.log ≡ all_dealings (dealt []))
        × (log : List Event) × (t.log ≡ store trace_base 0x20050001 ∷ log))
      (λ done t. ⊥)
      (kernel_main 2 (λ round. from 2 ∷ from 1 ∷ []) [] (answering answers))
kernel_main-AllDealings_example =
    kernel_main-AllDealings 2 (λ round. from 2 ∷ from 1 ∷ []) [] (answering answers)

-- On this processor the case succeeds.
succeeds :
    last_report (kernel_main 2 (λ round. from 2 ∷ from 1 ∷ []) [] (answering answers)) ≡ 0x20050001
unfolding kernel_main checks start_timer claim_timer claim_by_priority claim_by_number
    check_periodic arm_uarts take_irqs wait_irqs serve wait_uarts wait_uart require_claim
    systick_exact_128 systick_exact_64 irq_dispatch claim finish require conformance_fail
    trace_event fail_stop
succeeds = refl
