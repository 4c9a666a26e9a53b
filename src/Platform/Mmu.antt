-- ===== src/Platform/Mmu.antt =====
-- kernel/include/minemu/mmu.h: the bits of a page entry, the causes of a fault, and the
-- accesses to the coprocessor.
use minimum_tests.Base.{ℕ, bit_and}
use minimum_tests.Machine.{Bus, tlbiall, ttbr0, vbar, mmu_enable, Run, ret, controlled}

abbrev pub pte_valid : ℕ
pte_valid = 1

abbrev pub pte_writable : ℕ
pte_writable = 2

abbrev pub pte_user : ℕ
pte_user = 4

abbrev pub pte_executable : ℕ
pte_executable = 8

abbrev pub pte_readable : ℕ
pte_readable = 16

abbrev pub pde_valid : ℕ
pde_valid = 1

abbrev pub page_size : ℕ
page_size = 4096

abbrev pub pte_accessed : ℕ
pte_accessed = 32

abbrev pub pte_dirty : ℕ
pte_dirty = 64

module _ {D : Type 0} ⦃bus : Bus D⦄ where
  unfoldable pub mmu_tlbiall : Run D (Unit {0})
  mmu_tlbiall s = ret tt (controlled tlbiall s)

  unfoldable pub mmu_set_ttbr0 : (address : ℕ) → Run D (Unit {0})
  mmu_set_ttbr0 address s = ret tt (controlled (ttbr0 address) s)

  pub mmu_set_enabled : (enabled : ℕ) → Run D (Unit {0})
  mmu_set_enabled enabled s = ret tt (controlled (mmu_enable (bit_and enabled 1)) s)

  pub mmu_set_vbar : (address : ℕ) → Run D (Unit {0})
  mmu_set_vbar address s = ret tt (controlled (vbar address) s)

  pub mmu_dfsr : Run D ℕ
  mmu_dfsr s = ret (bus.dfsr s.devices) s

  pub mmu_dfar : Run D ℕ
  mmu_dfar s = ret (bus.dfar s.devices) s
