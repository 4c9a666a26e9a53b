-- ===== src/Headless/Exceptions/Main/Tests.antt =====
-- The case on a processor that traps as the case expects.
use minimum_tests.Base.{ℕ, ◌≡◌, refl, List, [], ◌∷◌}
use minimum_tests.Machine.{ret}
use minimum_tests.Machine.Sample.{scripted, answering, last_report, quiet, idle}
use minimum_tests.Platform.TrapFrame.{
  skipped, TrapFrame, exception_undefined, exception_svc, exception_prefetch_abort,
  exception_data_abort,
}
use minimum_tests.Headless.Ensures.{Ensures, Never}
use minimum_tests.Headless.Exceptions.{
  Image, Stages, svc_dispatch, irq_dispatch, undefined_dispatch, abort_dispatch, serve_abort,
  repair, require_exact_stack, check_return,
}
use minimum_tests.Headless.{for_each, set_flag, keep_flags}
use minimum_tests.Runtime.{require, conformance_fail, trace_event, fail_stop, test_paddr}
use minimum_tests.Platform.Mmu.{mmu_tlbiall}
use minimum_tests.Headless.Exceptions.Main.{
  Trap, svc, irq, undefined, abort, dispatch, World, cleared, serve, wait_irq, map_data_table,
  provoke, await_tick, kernel_main,
}
use minimum_tests.Headless.Exceptions.Served.{IsServed, device_read}
use minimum_tests.Headless.Exceptions.Sound.{dispatch-IsServed}
use minimum_tests.Headless.Exceptions.Complete.{IsServed-dispatch}
use minimum_tests.Headless.Exceptions.Main.Account.{IsAccounted, serve-IsAccounted}
use minimum_tests.Headless.Exceptions.Main.Provoked.{HasPassed, kernel_main-IsProvoked}

abbrev image : Image
image = record {
  svc_stack_top = 0x80011000;
  irq_stack_top = 0x80012000;
  abt_stack_top = 0x80013000;
  und_stack_top = 0x80014000;
  data_table = 0x80015000;
  data_page = 0x80016000;
  prefetch_probe = 0x80017000;
  user_probe = 0x80018000;
}

-- A frame of an exception at 0x80001000.
abbrev frame : (id return_lr spsr dfsr dfar : ℕ) → TrapFrame
frame id return_lr spsr dfsr dfar = record {
  r = λ index. 0;
  return_lr = return_lr;
  spsr = spsr;
  exception_id = id;
  fault_pc = 0x80001000;
  dfsr = dfsr;
  dfar = dfar;
  user_sp = 0;
  user_lr = 0;
  reserved = 0;
}

abbrev bad_word : (spsr : ℕ) → Trap
bad_word spsr = undefined 0x80013fa8 (frame exception_undefined 0x80001004 spsr 0 0)

abbrev refused_read : TrapFrame
refused_read = frame exception_data_abort 0x80001008 0x10 0x102 0x10003000

abbrev data_fault : (dfsr dfar : ℕ) → Trap
data_fault dfsr dfar = abort 0x80012fa8 (frame exception_data_abort 0x80001008 0x10 dfsr dfar)

abbrev fetch_fault : (dfsr dfar : ℕ) → Trap
fetch_fault dfsr dfar = abort 0x80012fa8 (frame exception_prefetch_abort 0x80001004 0x10 dfsr dfar)

abbrev world : World
world = record {
  entry_sp = 0x80010f00;
  probe_sp = 0x80010f00;
  at_svc = svc 0x80010ea8 (frame exception_svc 0x80001004 0x13 0 0) ∷ [];
  at_undefined = bad_word 0x13 ∷ [];
  at_condition_false = [];
  at_data = data_fault 1 0x20000000 ∷ [];
  at_prefetch = fetch_fault 0x404 0x80017000 ∷ [];
  at_user =
      fetch_fault 0x504 0x80018000
      ∷ data_fault 0x102 0x10003000
      ∷ data_fault 0x303 0x1000f000
      ∷ bad_word 0x10
      ∷ svc 0x80010ea8 (frame exception_svc 0x80001004 0x10 0 0)
      ∷ [];
  while_waiting = λ round. irq 0x80011fa8 (frame 0 0x80001004 0x13 0 0) ∷ [];
  at_mask = [];
}

-- The word of the new page, the four reads of page entries, and the pending timer.
abbrev answers : List ℕ
answers = 0 ∷ 0x4001701b ∷ 0x40017013 ∷ 0x4001801f ∷ 0x4001801b ∷ 1 ∷ []

kernel_main-IsProvoked_example :
    Ensures Unit (HasPassed world) (λ done m. ⊥) (kernel_main image 2 world (answering answers))
kernel_main-IsProvoked_example = kernel_main-IsProvoked image 2 world (answering answers)

abbrev armed : Stages
armed = record cleared { undefined_stage = 1; user_device_stage = 1 }

dispatch-IsServed_example :
    Ensures ⊥ Never
      (IsServed image armed idle (bad_word 0x13))
      (dispatch image (bad_word 0x13) armed idle)
dispatch-IsServed_example = dispatch-IsServed image (bad_word 0x13) armed idle

IsServed-dispatch_example :
    dispatch image (abort 0x80012fa8 refused_read) armed idle
    ≡ ret (skipped refused_read, record armed { user_device_stage = 2 }) idle
IsServed-dispatch_example =
    IsServed-dispatch image armed idle (abort 0x80012fa8 refused_read)
      (skipped refused_read, record armed { user_device_stage = 2 }) idle
      (device_read (refl, refl) (record { numbered = refl; returning = refl; blank = refl }) refl
        refl refl)

serve-IsAccounted_example :
    Ensures ⊥ Never
      (λ after m. IsAccounted (bad_word 0x13 ∷ []) armed after)
      (serve image (bad_word 0x13 ∷ []) armed idle)
serve-IsAccounted_example = serve-IsAccounted image (bad_word 0x13 ∷ []) armed idle

-- On this processor the case succeeds.
succeeds : last_report (kernel_main image 2 world (answering answers)) ≡ 0x20070001
unfolding kernel_main map_data_table provoke await_tick serve wait_irq svc_dispatch irq_dispatch
    undefined_dispatch abort_dispatch serve_abort repair require_exact_stack check_return for_each
    set_flag keep_flags require conformance_fail trace_event fail_stop test_paddr mmu_tlbiall
succeeds = refl
