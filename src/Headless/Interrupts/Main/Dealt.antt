-- ===== src/Headless/Interrupts/Main/Dealt.antt =====
-- headless/interrupts: the dealings with the interrupt controller, loads and stores alike.
use minimum_tests.Base.{
  ℕ, zero, suc, ◌/◌, ◌≡◌, refl, Bool, false, List, [], ◌∷◌, bit_and, u32, ◌==◌, ==_iff,
  if◌then◌else◌,
}
use minimum_tests.Machine.{Bus, Event, load, store, mmio_read, mmio_write}
use minimum_tests.Platform.Registers.{interrupt_claim, interrupt_eoi, systick_ack}
use minimum_tests.Headless.{uart0, uart1, rx_data, status, rx_ready}
use minimum_tests.Headless.Ensures.{waits, returns, require_last-Ensures}
use minimum_tests.Headless.Tells.{Tells, seq-Tells, bind-Tells, pure-Tells, if-Tells}
use minimum_tests.Headless.Interrupts.{claim, finish}
use minimum_tests.Headless.Interrupts.Main.{wait_uart, require_claim}

abbrev pub is_dealing : ℕ → Bool
is_dealing address = address / 0x1000 == 0x10000

abbrev pub dealt : List Event → List Event
dealt [] = []
dealt (store address value ∷ log) =
    let rest = dealt log in if is_dealing address then store address value ∷ rest else rest
dealt (load address value ∷ log) =
    let rest = dealt log in if is_dealing address then load address value ∷ rest else rest
dealt (_ ∷ log) = dealt log

-- A claim that gives `source`, and the end of an interrupt.
abbrev pub claimed : (source : ℕ) → List Event → List Event
claimed source log = load interrupt_claim source ∷ log

abbrev pub ended : (source : ℕ) → List Event → List Event
ended source log = store interrupt_eoi (u32 source) ∷ log

-- One store, by where it goes.
abbrev adding : (address value : ℕ) → List Event → List Event
adding address value log = if is_dealing address then store address (u32 value) ∷ log else log

module _ {D : Type 0} ⦃bus : Bus D⦄ where
  pub mmio_write-Tells :
      (address value : ℕ)
      → Tells {D = D} Unit dealt (mmio_write address value) (adding address value)
  mmio_write-Tells address value = record { tells = λ s. returns _ _ refl }

  pub read_elsewhere-Tells :
      (address : ℕ)
      → is_dealing address ≡ false
      → Tells {D = D} Unit dealt (mmio_read address) (λ log. log)
  read_elsewhere-Tells address e = record { tells = λ s. returns _ _ (rw e refl) }

  pub require_claim-Tells :
      (source code : ℕ) → Tells {D = D} Unit dealt (require_claim source code) (claimed source)
  unfolding require_claim claim
  require_claim-Tells source code = record {
    tells = λ s.
        require_last-Ensures _ _ _ ((bus.read s.devices interrupt_claim).0 == source) code _
          (λ e. rw ((==_iff (bus.read s.devices interrupt_claim).0 source).0 e) refl);
  }

  pub finish-Tells : (source : ℕ) → Tells {D = D} Unit dealt (finish source) (ended source)
  unfolding finish
  finish-Tells source =
      seq-Tells
        (if-Tells (source == 0) (mmio_write-Tells systick_ack 1) (
          if-Tells (source == 1)
            (bind-Tells (read_elsewhere-Tells (rx_data uart0) refl) (λ value. pure-Tells tt))
            (if-Tells (source == 2)
              (bind-Tells (read_elsewhere-Tells (rx_data uart1) refl) (λ value. pure-Tells tt))
              (pure-Tells tt))))
        (mmio_write-Tells interrupt_eoi source)

  pub wait_uart-Tells :
      (rounds uart : ℕ)
      → is_dealing (status uart) ≡ false
      → Tells {D = D} Unit dealt (wait_uart rounds uart) (λ log. log)
  unfolding wait_uart
  wait_uart-Tells zero uart e = record { tells = λ s. waits tt s }
  wait_uart-Tells (suc rounds) uart e = bind-Tells (read_elsewhere-Tells (status uart) e) (λ value.
      if-Tells (bit_and value rx_ready == 0) (wait_uart-Tells rounds uart e) (pure-Tells tt))
