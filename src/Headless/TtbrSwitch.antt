-- ===== src/Headless/TtbrSwitch.antt =====
-- headless/ttbr-switch/main.c: two directories that map one page differently, and the TLB between
-- them. All words of the tables and pages are behind the bus.
pub mod Watched
mod Tests
use minimum_tests.Base.{ℕ, ◌+◌, ◌*◌, bit_or, u32, ◌>>>◌}
use minimum_tests.Machine.{Bus, Run, ◌>>=◌, ◌>>◌, mmio_read, mmio_write}
use minimum_tests.Runtime.{trace_event, fail_stop, test_paddr}
use minimum_tests.Platform.Mmu.{pte_valid, pte_readable, pte_writable, mmu_tlbiall, mmu_set_ttbr0}
use minimum_tests.Headless.{check, for_each, root_table}

abbrev pub test_vaddr : ℕ
test_vaddr = 0x20000000

abbrev pub test_directory_index : ℕ
test_directory_index = test_vaddr >>> 22

abbrev pub page_flags : ℕ
page_flags = bit_or (bit_or pte_valid pte_readable) pte_writable

-- Where the linker places the second directory, the two tables and the two pages.
pub record Image : Type 0 where
  pub root_b : ℕ
  pub table_a : ℕ
  pub table_b : ℕ
  pub page_a : ℕ
  pub page_b : ℕ

module _ {D : Type 0} ⦃bus : Bus D⦄ (image : Image) where
  -- One round of the first loop: a word of the directory is copied, and the tables are cleared.
  pub copy_root : (index : ℕ) → Run D (Unit {0})
  copy_root index = do
    entry ← mmio_read (root_table + index * 4)
    mmio_write (u32 (image.root_b + index * 4)) entry
    mmio_write (u32 (image.table_a + index * 4)) 0
    mmio_write (u32 (image.table_b + index * 4)) 0

  pub build_tables : Run D (Unit {0})
  unfolding copy_root mmu_tlbiall
  build_tables = do
    for_each copy_root 1024 0
    mmio_write image.page_a 0xaaaaaaaa
    mmio_write image.page_b 0xbbbbbbbb
    mmio_write image.table_a (bit_or (test_paddr image.page_a) page_flags)
    mmio_write image.table_b (bit_or (test_paddr image.page_b) page_flags)
    mmio_write (root_table + test_directory_index * 4) (bit_or (test_paddr image.table_a) pte_valid)
    mmio_write (u32 (image.root_b + test_directory_index * 4))
        (bit_or (test_paddr image.table_b) pte_valid)
    mmu_tlbiall

  pub switch_roots : Run D (Unit {0})
  unfolding mmu_tlbiall mmu_set_ttbr0
  switch_roots = do
    check test_vaddr 0xaaaaaaaa 1
    mmu_set_ttbr0 (test_paddr image.root_b)
    check test_vaddr 0xaaaaaaaa 2
    mmu_tlbiall
    check test_vaddr 0xbbbbbbbb 3
    mmu_set_ttbr0 0x40010000
    mmu_tlbiall
    check test_vaddr 0xaaaaaaaa 4

  pub checks : Run D (Unit {0})
  unfolding build_tables switch_roots
  checks = do build_tables; switch_roots

  pub ttbr_switch_main : Run D (Unit {0})
  unfolding checks trace_event fail_stop
  ttbr_switch_main = do checks; trace_event 0x20040001; fail_stop
