-- ===== src/Headless/Exceptions/Abort.antt =====
-- The abort dispatcher on each abort that the case waits for.
use minimum_tests.Base.{ℕ, ◌+◌, ◌≡◌, refl, ◌∙◌, arith, true, false, ◌==◌, ◌&&◌, u32}
use minimum_tests.Machine.{Bus, Machine, ret, stored, controlled, tlbiall}
use minimum_tests.Runtime.{trace_base}
use minimum_tests.Runtime.Conformance.{require_holds}
use minimum_tests.Platform.Mmu.{mmu_tlbiall, pte_executable, pte_user}
use minimum_tests.Platform.Registers.{rng_base}
use minimum_tests.Platform.TrapFrame.{
  skipped, TrapFrame, exception_prefetch_abort, exception_data_abort,
}
use minimum_tests.Headless.{set_flag, flagged}
use minimum_tests.Headless.Exceptions.{
  Image, Stages, direct_pte, data_vaddr, require_exact_stack, check_return, repair, serve_abort,
  abort_dispatch,
}
use minimum_tests.Headless.Exceptions.Served.{IsFrame, IsOnStack, data_entry}

module _ {D : Type 0} ⦃bus : Bus D⦄ (s : Machine D) where
  pub require_exact_stack-holds :
      (address top code : ℕ)
      → IsOnStack address top
      → require_exact_stack address top code s ≡ ret tt s
  unfolding require_exact_stack
  require_exact_stack-holds address top code h = require_holds _ code s (ground arith)

  pub check_return-data :
      (frame : TrapFrame) → IsFrame frame exception_data_abort 8 → check_return frame s ≡ ret tt s
  unfolding check_return
  check_return-data frame f =
      let data_abort : (frame.exception_id == exception_data_abort) ≡ true = ground (arith, f) in
      let returning : (frame.return_lr == u32 (frame.fault_pc + 8)) ≡ true = ground (arith, f) in
      rw data_abort (require_holds _ 56 s returning)

  pub check_return-fetch :
      (frame : TrapFrame)
      → IsFrame frame exception_prefetch_abort 4
      → check_return frame s ≡ ret tt s
  unfolding check_return
  check_return-fetch frame f =
      let not_data : (frame.exception_id == exception_data_abort) ≡ false = ground (arith, f) in
      let fetch_abort : (frame.exception_id == exception_prefetch_abort) ≡ true =
        ground (arith, f) in
      let returning : (frame.return_lr == u32 (frame.fault_pc + 4)) ≡ true = ground (arith, f) in
      rw (not_data, fetch_abort) (require_holds _ 57 s returning)

module _ {D : Type 0} ⦃bus : Bus D⦄ (image : Image) (t : Stages) (s : Machine D) where
  pub abort_dispatch-checked :
      (address : ℕ) (frame : TrapFrame)
      → IsOnStack address image.abt_stack_top
      → check_return frame s ≡ ret tt s
      → frame.reserved ≡ 0
      → abort_dispatch image address frame t s ≡ serve_abort image frame t s
  unfolding abort_dispatch
  abort_dispatch-checked address frame placed returning blank =
      let zero_word : (frame.reserved == 0) ≡ true = ground arith in
      rw
        (
          require_exact_stack-holds s address image.abt_stack_top 63 placed,
          returning,
          require_holds _ 58 s zero_word,
        )
        refl

  -- Aborts that are not those of a device go to the repair.
  serve_abort-repairs :
      (frame : TrapFrame) (after : Machine D)
      → (t.user_device_stage == 1
          && frame.exception_id == exception_data_abort
          && frame.dfar == rng_base)
        ≡ false
      → (t.user_device_stage == 2
          && frame.exception_id == exception_data_abort
          && frame.dfar == trace_base)
        ≡ false
      → repair image frame t s ≡ ret tt after
      → serve_abort image frame t s
        ≡ ret (frame, record t { abort_stage = 0 }) (controlled tlbiall after)
  unfolding serve_abort mmu_tlbiall
  serve_abort-repairs frame after no_read no_write e = rw (no_read, no_write, e) refl

  pub repair-missing_page :
      (frame : TrapFrame)
      → IsFrame frame exception_data_abort 8
      → t.abort_stage ≡ 1
      → frame.dfar ≡ data_vaddr
      → frame.dfsr ≡ 1
      → repair image frame t s ≡ ret tt (stored image.data_table (data_entry image) s)
  unfolding repair
  repair-missing_page frame f first there cause =
      let staged : (t.abort_stage == 1) ≡ true = ground arith in
      let numbered : (frame.exception_id == exception_data_abort) ≡ true = ground (arith, f) in
      let faulting : (frame.dfar == data_vaddr && frame.dfsr == 1) ≡ true = ground arith in
      rw (staged, require_holds _ 40 s numbered, require_holds _ 41 s faulting) refl

  pub repair-not_executable :
      (frame : TrapFrame)
      → IsFrame frame exception_prefetch_abort 4
      → t.abort_stage ≡ 2
      → frame.dfar ≡ image.prefetch_probe
      → frame.dfsr ≡ 0x404
      → repair image frame t s ≡ ret tt (flagged (direct_pte image.prefetch_probe) pte_executable s)
  unfolding repair set_flag
  repair-not_executable frame f second there cause =
      let not_first : (t.abort_stage == 1) ≡ false = ground arith in
      let staged : (t.abort_stage == 2) ≡ true = ground arith in
      let numbered : (frame.exception_id == exception_prefetch_abort) ≡ true = ground (arith, f) in
      let at : (frame.dfar == image.prefetch_probe) ≡ true = ground arith in
      let causing : (frame.dfsr == 0x404) ≡ true = ground arith in
      rw
        (
          not_first,
          staged,
          require_holds _ 42 s numbered,
          require_holds _ 43 s at,
          require_holds _ 44 s causing,
        )
        refl

  pub repair-not_user :
      (frame : TrapFrame)
      → IsFrame frame exception_prefetch_abort 4
      → t.abort_stage ≡ 3
      → frame.dfar ≡ image.user_probe
      → frame.dfsr ≡ 0x504
      → repair image frame t s ≡ ret tt (flagged (direct_pte image.user_probe) pte_user s)
  unfolding repair set_flag
  repair-not_user frame f third there cause =
      let not_first : (t.abort_stage == 1) ≡ false = ground arith in
      let not_second : (t.abort_stage == 2) ≡ false = ground arith in
      let staged : (t.abort_stage == 3) ≡ true = ground arith in
      let numbered : (frame.exception_id == exception_prefetch_abort) ≡ true = ground (arith, f) in
      let at : (frame.dfar == image.user_probe) ≡ true = ground arith in
      let causing : (frame.dfsr == 0x504) ≡ true = ground arith in
      rw
        (
          not_first,
          not_second,
          staged,
          require_holds _ 45 s numbered,
          require_holds _ 46 s at,
          require_holds _ 47 s causing,
        )
        refl

  pub serve_abort-device_read :
      (frame : TrapFrame)
      → IsFrame frame exception_data_abort 8
      → t.user_device_stage ≡ 1
      → frame.dfar ≡ rng_base
      → frame.dfsr ≡ 0x102
      → serve_abort image frame t s ≡ ret (skipped frame, record t { user_device_stage = 2 }) s
  unfolding serve_abort
  serve_abort-device_read frame f stage there cause =
      let reads : (t.user_device_stage == 1
            && frame.exception_id == exception_data_abort
            && frame.dfar == rng_base)
          ≡ true =
        ground (arith, f) in
      let causing : (frame.dfsr == 0x102) ≡ true = ground arith in
      rw (reads, require_holds _ 50 s causing) refl

  pub serve_abort-device_write :
      (frame : TrapFrame)
      → IsFrame frame exception_data_abort 8
      → t.user_device_stage ≡ 2
      → frame.dfar ≡ trace_base
      → frame.dfsr ≡ 0x303
      → serve_abort image frame t s ≡ ret (skipped frame, record t { user_device_stage = 3 }) s
  unfolding serve_abort
  serve_abort-device_write frame f stage there cause =
      let no_read : (t.user_device_stage == 1
            && frame.exception_id == exception_data_abort
            && frame.dfar == rng_base)
          ≡ false =
        ground arith in
      let writes : (t.user_device_stage == 2
            && frame.exception_id == exception_data_abort
            && frame.dfar == trace_base)
          ≡ true =
        ground (arith, f) in
      let causing : (frame.dfsr == 0x303) ≡ true = ground arith in
      rw (no_read, writes, require_holds _ 52 s causing) refl

  pub abort_dispatch-repairs :
      (address : ℕ) (frame : TrapFrame) (after : Machine D)
      → IsOnStack address image.abt_stack_top
      → check_return frame s ≡ ret tt s
      → frame.reserved ≡ 0
      → (t.user_device_stage == 1
          && frame.exception_id == exception_data_abort
          && frame.dfar == rng_base)
        ≡ false
      → (t.user_device_stage == 2
          && frame.exception_id == exception_data_abort
          && frame.dfar == trace_base)
        ≡ false
      → repair image frame t s ≡ ret tt after
      → abort_dispatch image address frame t s
        ≡ ret (frame, record t { abort_stage = 0 }) (controlled tlbiall after)
  abort_dispatch-repairs address frame after placed returning blank no_read no_write e =
      abort_dispatch-checked address frame placed returning blank
      ∙ serve_abort-repairs frame after no_read no_write e
