-- ===== src/Machine.antt =====
-- The processor and the device bus as the C code sees them. The devices are not part of the
-- repository: what answers a load or a store is the parameter `bus`.
pub mod Sample
use minimum_tests.Base.{
  ℕ, ◌+◌, ◌-◌, ◌/◌, ◌%◌, List, ◌∷◌, [], Bool, true, false, u32, ◌==◌, if◌then◌else◌,
}

-- What the program does to the world.
pub data Event : Type 0 where
  load store : ℕ → ℕ → Event
  irq_off irq_on tlbiall : Event
  ttbr0 vbar mmu_enable : ℕ → Event

-- The devices and the memory behind the volatile words. A load may change them, as one of
-- `rx_data` or `claim` does. `control` is told what is written to the coprocessor,
-- and `dfsr` and `dfar` are what it holds of the last data abort.
pub record Bus (D : Type 0) : Type 0 where
  pub read : D → ℕ → ℕ × D
  pub write : D → ℕ → ℕ → D
  pub control : D → Event → D
  pub dfsr : D → ℕ
  pub dfar : D → ℕ

-- The newest event stands first in `log`.
pub record Machine (D : Type 0) : Type 0 where
  pub devices : D
  pub cpsr : ℕ
  pub log : List Event

-- `stopped` is the endless loop of `minemu_fail_stop`. `spinning` is a polling loop that has used
-- up the rounds that the model gives it.
pub data Result (D : Type 0) (A : Type 0) : Type 0 where
  ret : A → Machine D → Result D A
  stopped spinning : Machine D → Result D A

abbrev pub Run : Type 0 → Type 0 → Type 0
Run D A = Machine D → Result D A

abbrev pub pure : {D A : Type 0} → A → Run D A
pure a s = ret a s

abbrev pub and_then : {D A B : Type 0} → Result D A → (A → Run D B) → Result D B
and_then (ret a s) k = k a s
and_then (stopped s) k = stopped s
and_then (spinning s) k = spinning s

infixl 5 ◌>>=◌ ◌>>◌
abbrev pub ◌>>=◌ : {D A B : Type 0} → Run D A → (A → Run D B) → Run D B
◌>>=◌ m k s = and_then (m s) k

abbrev pub ◌>>◌ : {D B : Type 0} → Run D (Unit {0}) → Run D B → Run D B
m >> k = m >>= λ _. k

module _ {D : Type 0} ⦃bus : Bus D⦄ where
  -- `*(volatile const uint32_t *)address`
  abbrev pub mmio_read : ℕ → Run D ℕ
  mmio_read address s =
      let (value, after) = bus.read s.devices address in
      ret value (record s { devices = after; log = load address value ∷ s.log })

  abbrev pub stored : ℕ → ℕ → Machine D → Machine D
  stored address value s = record s {
    devices = bus.write s.devices address (u32 value);
    log = store address (u32 value) ∷ s.log;
  }

  -- `*(volatile uint32_t *)address = (uint32_t)value`
  abbrev pub mmio_write : ℕ → ℕ → Run D (Unit {0})
  mmio_write address value s = ret tt (stored address value s)

  abbrev pub controlled : Event → Machine D → Machine D
  controlled event s = record s { devices = bus.control s.devices event; log = event ∷ s.log }

-- Bit 7 of the status register, which masks IRQ.
abbrev pub irq_masked : ℕ → Bool
irq_masked cpsr = cpsr / 128 % 2 == 1

abbrev pub mrs_cpsr : {D : Type 0} → Run D ℕ
mrs_cpsr s = ret s.cpsr s

abbrev pub masked : {D : Type 0} → Machine D → Machine D
masked s = record s {
  cpsr = if irq_masked s.cpsr then s.cpsr else s.cpsr + 128;
  log = irq_off ∷ s.log;
}

abbrev pub unmasked : {D : Type 0} → Machine D → Machine D
unmasked s = record s {
  cpsr = if irq_masked s.cpsr then s.cpsr - 128 else s.cpsr;
  log = irq_on ∷ s.log;
}

-- `cpsid i` and `cpsie i`
abbrev pub cpsid_i : {D : Type 0} → Run D (Unit {0})
cpsid_i s = ret tt (masked s)

abbrev pub cpsie_i : {D : Type 0} → Run D (Unit {0})
cpsie_i s = ret tt (unmasked s)

-- The processor masks IRQ when it takes an exception; the return restores the status.
abbrev pub entered : {D : Type 0} → Machine D → Machine D
entered s = record s { cpsr = if irq_masked s.cpsr then s.cpsr else s.cpsr + 128 }

abbrev pub in_exception : {D A : Type 0} → Run D A → Run D A
in_exception handler s = and_then (handler (entered s)) (λ a t. ret a (record t { cpsr = s.cpsr }))
