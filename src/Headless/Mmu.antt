-- ===== src/Headless/Mmu.antt =====
-- headless/mmu/main.c: one page under changing flags, and the faults that its accesses provoke. The
-- words of the tables and of the page are behind the bus, as the processor walks and marks them.
pub mod Dispatch
pub mod Retried
pub mod Faults
mod Tests
use minimum_tests.Base.{
  ℕ, ◌+◌, ◌*◌, Bool, bit_and, bit_or, ◌==◌, ◌!=◌, u32, ◌<<◌, ◌>>>◌, if◌then◌else◌, List, [], ◌∷◌,
}
use minimum_tests.Machine.{Bus, Run, ◌>>=◌, ◌>>◌, pure, mmio_read, mmio_write}
use minimum_tests.Runtime.{trace_event, fail_stop, require, conformance_fail, test_paddr}
use minimum_tests.Platform.Mmu.{
  pte_valid, pte_readable, pte_writable, pte_accessed, pte_dirty, mmu_tlbiall,
}
use minimum_tests.Platform.TrapFrame.{TrapFrame, skipped, exception_data_abort}
use minimum_tests.Headless.{for_each, set_flag, keep_flags, root_table}

abbrev pub test_vaddr : ℕ
test_vaddr = 0x20000000

abbrev pub test_directory_index : ℕ
test_directory_index = test_vaddr >>> 22

abbrev pub metadata : ℕ
metadata = 0x15 << 7

abbrev pub marks : ℕ
marks = bit_or pte_accessed pte_dirty

-- Where the linker places the table and the page.
pub record Image : Type 0 where
  pub table : ℕ
  pub page : ℕ

-- The aborts that the processor takes at each access of the test page, and what a load that is
-- skipped leaves in its register.
pub record World : Type 0 where
  pub at_first_store : List TrapFrame
  pub at_first_load : List TrapFrame
  pub at_unreadable : List TrapFrame
  pub at_unwritable : List TrapFrame
  pub at_device : List TrapFrame
  pub stale : ℕ

-- The entry of the page with some flags and the software bits.
abbrev pub page_entry : Image → (flags : ℕ) → ℕ
page_entry image flags = bit_or (bit_or (test_paddr image.page) flags) metadata

module _ {D : Type 0} ⦃bus : Bus D⦄ where
  -- An exception of another kind is reported with its number and cause.
  pub require_data_abort : TrapFrame → Run D (Unit {0})
  require_data_abort frame =
      if frame.exception_id != exception_data_abort
      then (do
        trace_event (
            bit_or (bit_or 0xe0060000 (bit_and frame.exception_id 0xff << 8))
              (bit_and frame.dfsr 0xff))
        conformance_fail 20)
      else pure tt

module _ {D : Type 0} ⦃bus : Bus D⦄ (image : Image) where
  -- What each stage does about its fault.
  pub repair : TrapFrame → (stage : ℕ) → Run D TrapFrame
  unfolding set_flag
  repair frame stage =
      if stage == 1
      then (do require (frame.dfsr == 2) 23; set_flag image.table pte_readable; pure frame)
      else if stage == 2
      then (do require (frame.dfsr == 0x203) 24; set_flag image.table pte_writable; pure frame)
      else if stage == 3
      then (do require (frame.dfsr == 0x203) 25; pure (skipped frame))
      else conformance_fail 26

  pub abort_dispatch : TrapFrame → (stage : ℕ) → Run D (TrapFrame × ℕ)
  unfolding require_data_abort repair mmu_tlbiall
  abort_dispatch frame stage = do
    require_data_abort frame
    require (frame.dfar == test_vaddr) 21
    entry ← mmio_read image.table
    require (bit_and entry marks == 0) 22
    frame' ← repair frame stage
    mmu_tlbiall
    pure (frame', 0)

  -- An instruction with the aborts it takes. It runs again, unless its return address was moved
  -- past it.
  pub retried : {A : Type 0} → List TrapFrame → (stage : ℕ) → Run D A → A → Run D (A × ℕ)
  retried [] stage instruction stale = instruction >>= λ a. pure (a, stage)
  retried (frame ∷ frames) stage instruction stale = do
    (frame', stage') ← abort_dispatch frame stage
    let rest = retried frames stage' instruction stale
    if frame'.return_lr == frame.return_lr then rest else pure (stale, stage')

  -- The entry is replaced, and the TLB flushed behind it.
  pub set_entry : (entry : ℕ) → Run D (Unit {0})
  unfolding mmu_tlbiall
  set_entry entry = do mmio_write image.table entry; mmu_tlbiall

  pub map_table : Run D (Unit {0})
  map_table = do
    for_each (λ index. mmio_write (u32 (image.table + index * 4)) 0) 1024 0
    mmio_write (root_table + test_directory_index * 4) (bit_or (test_paddr image.table) pte_valid)

  -- The accesses that are allowed, and the marks that they leave in the entry.
  pub check_marks : World → Run D (Unit {0})
  unfolding retried set_entry keep_flags mmu_tlbiall
  check_marks world = do
    set_entry (page_entry image (bit_or (bit_or pte_valid pte_readable) pte_writable))
    (done, stage) ← retried world.at_first_store 0 (mmio_write test_vaddr 0x12345678) tt
    word ← mmio_read image.page
    require (word == 0x12345678) 1
    entry ← mmio_read image.table
    require (bit_and entry marks == marks) 2
    entry ← mmio_read image.table
    require (bit_and entry (0x1f << 7) == metadata) 3
    keep_flags image.table 0xffffff9f
    mmu_tlbiall
    (word, stage) ← retried world.at_first_load stage (mmio_read test_vaddr) world.stale
    require (word == 0x12345678) 4
    entry ← mmio_read image.table
    require (bit_and entry pte_accessed != 0) 5
    entry ← mmio_read image.table
    require (bit_and entry pte_dirty == 0) 6

  -- The accesses that are refused: a load, a store, and a store to system ROM.
  pub check_faults : World → Run D (Unit {0})
  unfolding retried set_entry
  check_faults world = do
    set_entry (page_entry image (bit_or pte_valid pte_writable))
    (word, stage) ← retried world.at_unreadable 1 (mmio_read test_vaddr) world.stale
    require (word == 0x12345678) 7
    require (stage == 0) 8
    set_entry (page_entry image (bit_or pte_valid pte_readable))
    (done, stage) ← retried world.at_unwritable 2 (mmio_write test_vaddr 0x87654321) tt
    word ← mmio_read image.page
    require (word == 0x87654321) 9
    require (stage == 0) 10
    set_entry (bit_or 0x08000000 (bit_or (bit_or pte_valid pte_readable) pte_writable))
    (done, stage) ← retried world.at_device 3 (mmio_write test_vaddr 0) tt
    require (stage == 0) 11

  pub kernel_main : World → Run D (Unit {0})
  unfolding map_table check_marks check_faults trace_event fail_stop
  kernel_main world = do
    map_table
    check_marks world
    check_faults world
    trace_event 0x20060001
    fail_stop
