-- ===== src/Headless/Exceptions/Complete.antt =====
-- The dispatchers return from each trap that they serve.
use minimum_tests.Base.{
  ℕ, ◌+◌, ◌≡◌, inl, inr, refl, ◌∙◌, arith, true, false, bit_and, ltb, leb, ◌==◌, ◌!=◌, ◌&&◌, u32,
  sub_u32, if◌then◌else◌,
}
use minimum_tests.Machine.{Bus, Machine, ret}
use minimum_tests.Runtime.Conformance.{require_holds}
use minimum_tests.Platform.Registers.{irq_systick, systick_status, systick_status_pending}
use minimum_tests.Platform.TrapFrame.{TrapFrame, exception_undefined, exception_svc}
use minimum_tests.Headless.{word_at, loaded}
use minimum_tests.Headless.Exceptions.{
  Image, Stages, mode, svc_dispatch, irq_dispatch, undefined_dispatch,
}
use minimum_tests.Headless.Exceptions.Abort.{
  require_exact_stack-holds, check_return-data, check_return-fetch, abort_dispatch-checked,
  repair-missing_page, repair-not_executable, repair-not_user, serve_abort-device_read,
  serve_abort-device_write, abort_dispatch-repairs,
}
use minimum_tests.Headless.Exceptions.Main.{Trap, dispatch}
use minimum_tests.Headless.Exceptions.Served.{
  IsServed, IsFrame, call, tick, bad_instruction, device_read, device_write, missing_page,
  not_executable, not_user,
}

returning :
    (frame : TrapFrame) {id : ℕ}
    → IsFrame frame id 4
    → (frame.return_lr == u32 (frame.fault_pc + 4) && frame.reserved == 0) ≡ true
returning frame f = ground (arith, f)

module _ {D : Type 0} ⦃bus : Bus D⦄ (image : Image) (t : Stages) (s : Machine D) where
  -- Every trap that the case waits for is served: no assertion fails, and the frame, the stages and
  -- the machine are those of its kind.
  pub IsServed-dispatch :
      (trap : Trap) (r : TrapFrame × Stages) (after : Machine D)
      → IsServed image t s trap r after
      → dispatch image trap t s ≡ ret r after
  unfolding svc_dispatch irq_dispatch undefined_dispatch
  IsServed-dispatch _ _ _ (call {address} {frame} e low high aligned f m) =
      let placed : (address == t.expected_svc_frame
            && leb (sub_u32 image.svc_stack_top 4096) address
            && ltb address image.svc_stack_top
            && bit_and address 7 == 0)
          ≡ true =
        ground arith in
      let numbered : (frame.exception_id == exception_svc) ≡ true = ground (arith, f) in
      let moded : (mode frame == (if t.svc_count == 0 then 0x13 else 0x10)) ≡ true =
        rw m (ground arith) in
      rw
        (
          require_holds _ 59 s placed,
          require_holds _ 30 s numbered,
          require_holds _ 53 s (returning frame f),
          require_holds _ 31 s moded,
        )
        refl
  IsServed-dispatch _ _ _ (tick {address} {frame} placed masked f pending) =
      let masks : (bit_and s.cpsr 0x80 != 0) ≡ true = ground arith in
      let numbered : (frame.exception_id == irq_systick) ≡ true = ground (arith, f) in
      let pends : (bit_and (word_at systick_status s) systick_status_pending != 0) ≡ true =
        ground arith in
      rw
        (
          require_exact_stack-holds s address image.irq_stack_top 60 placed,
          require_holds _ 61 s masks,
          require_holds _ 32 s numbered,
          require_holds _ 54 s (returning frame f),
          require_holds _ 33 (loaded systick_status s) pends,
        )
        refl
  IsServed-dispatch _ _ _ (bad_instruction {address} {frame} placed f (inl (first, m))) =
      let numbered : (frame.exception_id == exception_undefined) ≡ true = ground (arith, f) in
      let staged : (t.undefined_stage == 1) ≡ true = ground arith in
      let moded : (mode frame == 0x13) ≡ true = ground arith in
      rw
        (
          require_exact_stack-holds s address image.und_stack_top 62 placed,
          require_holds _ 34 s numbered,
          require_holds _ 55 s (returning frame f),
          staged,
          require_holds _ 35 s moded,
        )
        refl
  IsServed-dispatch _ _ _ (bad_instruction {address} {frame} placed f (inr (second, m))) =
      let numbered : (frame.exception_id == exception_undefined) ≡ true = ground (arith, f) in
      let not_first : (t.undefined_stage == 1) ≡ false = ground arith in
      let staged : (t.undefined_stage == 2) ≡ true = ground arith in
      let moded : (mode frame == 0x10) ≡ true = ground arith in
      rw
        (
          require_exact_stack-holds s address image.und_stack_top 62 placed,
          require_holds _ 34 s numbered,
          require_holds _ 55 s (returning frame f),
          not_first,
          staged,
          require_holds _ 36 s moded,
        )
        refl
  IsServed-dispatch _ _ _ (device_read {address} {frame} placed f stage there cause) =
      abort_dispatch-checked image t s address frame placed (check_return-data s frame f) f.blank
      ∙ serve_abort-device_read image t s frame f stage there cause
  IsServed-dispatch _ _ _ (device_write {address} {frame} placed f stage there cause) =
      abort_dispatch-checked image t s address frame placed (check_return-data s frame f) f.blank
      ∙ serve_abort-device_write image t s frame f stage there cause
  IsServed-dispatch _ _ _ (missing_page {address} {frame} placed f stage there cause) =
      abort_dispatch-repairs image t s address frame _ placed (check_return-data s frame f) f.blank
        (ground arith) (ground arith) (repair-missing_page image t s frame f stage there cause)
  IsServed-dispatch _ _ _ (not_executable {address} {frame} placed f stage there cause) =
      abort_dispatch-repairs image t s address frame _ placed (check_return-fetch s frame f) f.blank
        (ground (arith, f)) (ground (arith, f))
        (repair-not_executable image t s frame f stage there cause)
  IsServed-dispatch _ _ _ (not_user {address} {frame} placed f stage there cause) =
      abort_dispatch-repairs image t s address frame _ placed (check_return-fetch s frame f) f.blank
        (ground (arith, f)) (ground (arith, f))
        (repair-not_user image t s frame f stage there cause)
