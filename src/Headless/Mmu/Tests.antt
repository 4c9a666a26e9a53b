-- ===== src/Headless/Mmu/Tests.antt =====
-- The case on a processor that faults as the case expects.
use minimum_tests.Base.{ℕ, ◌≡◌, refl, List, [], ◌∷◌}
use minimum_tests.Machine.Sample.{scripted, answering, last_report}
use minimum_tests.Runtime.{require, conformance_fail, trace_event, fail_stop, test_paddr}
use minimum_tests.Platform.Mmu.{mmu_tlbiall}
use minimum_tests.Headless.{for_each, set_flag, keep_flags}
use minimum_tests.Platform.TrapFrame.{TrapFrame, exception_data_abort}
use minimum_tests.Headless.Ensures.{Ensures}
use minimum_tests.Headless.Mmu.{
  Image, World, kernel_main, map_table, check_marks, check_faults, set_entry, retried,
  abort_dispatch, repair, require_data_abort,
}
use minimum_tests.Headless.Mmu.Faults.{HasPassed, kernel_main-IsFaulting}

abbrev image : Image
image = record { table = 0x80015000; page = 0x80016000 }

abbrev fault : (dfsr : ℕ) → TrapFrame
fault dfsr = record {
  r = λ index. 0;
  return_lr = 0x80001008;
  spsr = 0x13;
  exception_id = exception_data_abort;
  fault_pc = 0x80001000;
  dfsr = dfsr;
  dfar = 0x20000000;
  user_sp = 0;
  user_lr = 0;
  reserved = 0;
}

abbrev world : World
world = record {
  at_first_store = [];
  at_first_load = [];
  at_unreadable = fault 2 ∷ [];
  at_unwritable = fault 0x203 ∷ [];
  at_device = fault 0x203 ∷ [];
  stale = 0;
}

-- The page and its entry with both marks; the entry to be cleared; the page and its entry with one
-- mark; then the entry before and in each repair, with the word of the page behind it.
abbrev answers : List ℕ
answers =
    0x12345678 ∷ 0x16af3 ∷ 0x16af3 ∷ 0x16af3 ∷ 0x12345678 ∷ 0x16ab3 ∷ 0x16ab3 ∷ 0x16a83 ∷ 0x16a83
    ∷ 0x12345678 ∷ 0x16a91 ∷ 0x16a91 ∷ 0x87654321 ∷ 0x8000013 ∷ []

kernel_main-IsFaulting_example :
    Ensures ⊥ (HasPassed world) (λ done m. ⊥) (kernel_main image world (answering answers))
kernel_main-IsFaulting_example = kernel_main-IsFaulting image world (answering answers)

-- On this processor the case succeeds.
succeeds : last_report (kernel_main image world (answering answers)) ≡ 0x20060001
unfolding kernel_main map_table check_marks check_faults set_entry retried abort_dispatch repair
    require_data_abort for_each set_flag keep_flags mmu_tlbiall require conformance_fail trace_event
    fail_stop test_paddr
succeeds = refl
