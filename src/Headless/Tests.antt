-- ===== src/Headless/Tests.antt =====
-- The cases on devices that answer as the cases expect.
use minimum_tests.Base.{ℕ, List, [], ◌∷◌}
use minimum_tests.Machine.Sample.{scripted, answering, quiet}
use minimum_tests.Platform.TrapFrame.{TrapFrame}
use minimum_tests.Headless.Ensures.{Ends}
use minimum_tests.Headless.Interrupts.{Irqs}
use minimum_tests.Runtime.Block.Transfer.{effects}
use minimum_tests.Headless.{rng_trace_main, uart_main}
use minimum_tests.Headless.RngTrace.{rng_transcript, rng_trace_main-Ends}
use minimum_tests.Headless.Uart.{uart_effects, uart_main-Ends}

abbrev rng_answers : List ℕ
rng_answers =
    0x4d454d55 ∷ 0x4d454d55 ∷ 0x791c7b62 ∷ 0x38784b1a ∷ 0x4d454d55 ∷ 0x38784b1a ∷ 0x4d454d55
    ∷ 0x4d454d55 ∷ 0x12345678 ∷ 0x12345678 ∷ 0x87985aa5 ∷ 0x155b24a3 ∷ 0x12345678 ∷ 0x155b24a3 ∷ []

rng_trace_main-Ends_example :
    Ends (λ log. log) (rng_transcript []) ⊥ (rng_trace_main (answering rng_answers))
rng_trace_main-Ends_example = rng_trace_main-Ends (answering rng_answers)

-- Ready to send twice; "A" at the second poll and "B" at the first; then nothing more.
abbrev uart_answers : List ℕ
uart_answers = 2 ∷ 2 ∷ 0 ∷ 1 ∷ 65 ∷ 3 ∷ 66 ∷ 2 ∷ 2 ∷ []

uart_main-Ends_example : Ends effects (uart_effects []) Unit (uart_main 3 (answering uart_answers))
uart_main-Ends_example = uart_main-Ends 3 (answering uart_answers)

abbrev from_uart1 : TrapFrame
from_uart1 = record {
  r = λ index. 0;
  return_lr = 0;
  spsr = 0x13;
  exception_id = 2;
  fault_pc = 0;
  dfsr = 0;
  dfar = 0;
  user_sp = 0;
  user_lr = 0;
  reserved = 0;
}

abbrev no_irqs : Irqs
no_irqs = record { irq_count = 0; irq_order = λ index. 0 }
