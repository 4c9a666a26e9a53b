-- ===== src/Headless/Interrupts.antt =====
-- headless/interrupts/main.c: the dispatcher, and the claim and end of an interrupt by hand.
pub mod Dispatch
pub mod Main
use minimum_tests.Base.{ℕ, zero, suc, ◌+◌, ◌||◌, Bool, bit_and, ltb, u32, ◌==◌, ◌!=◌, if◌then◌else◌}
use minimum_tests.Machine.{Bus, Run, ◌>>=◌, ◌>>◌, pure, mmio_read, mmio_write, mrs_cpsr}
use minimum_tests.Runtime.{require}
use minimum_tests.Platform.Registers.{interrupt_claim, interrupt_eoi, systick_ack}
use minimum_tests.Headless.{uart0, uart1, rx_data}
use minimum_tests.Platform.TrapFrame.{TrapFrame}

-- The statics: how many interrupts there were, and their sources.
pub record Irqs : Type 0 where
  pub irq_count : ℕ
  pub irq_order : ℕ → ℕ

-- `irq_order[irq_count++] = source`
abbrev pub noted : ℕ → Irqs → Irqs
noted source t = record {
  irq_count = u32 (t.irq_count + 1);
  irq_order = λ index. if index == t.irq_count then source else t.irq_order index;
}

module _ {D : Type 0} ⦃bus : Bus D⦄ where
  -- The frame is returned as it is.
  pub irq_dispatch : TrapFrame → Irqs → Run D Irqs
  irq_dispatch frame t = do
    cpsr ← mrs_cpsr
    require (bit_and cpsr 0x80 != 0) 22
    let source = frame.exception_id
    require (ltb t.irq_count 2) 20
    require (source == 1 || source == 2) 21
    let t' = noted source t
    ignored ← mmio_read (if source == 1 then rx_data uart0 else rx_data uart1)
    mmio_write interrupt_eoi source
    pure t'

  pub claim : Run D ℕ
  claim = mmio_read interrupt_claim

  pub finish : (source : ℕ) → Run D (Unit {0})
  finish source = do
    if source == 0
        then mmio_write systick_ack 1
        else if source == 1
        then (mmio_read (rx_data uart0) >>= λ _. pure tt)
        else if source == 2
        then (mmio_read (rx_data uart1) >>= λ _. pure tt)
        else pure tt
    mmio_write interrupt_eoi source
