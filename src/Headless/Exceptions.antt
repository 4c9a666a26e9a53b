-- ===== src/Headless/Exceptions.antt =====
-- headless/exceptions/main.c: the dispatchers that wait for the exceptions the case provokes. A
-- frame pointer is its address beside what it points at. The volatile words are behind the bus.
pub mod Served
pub mod Main
pub mod Sound
pub mod Abort
pub mod Complete
use minimum_tests.Base.{
  ℕ, ◌+◌, ◌*◌, Bool, ◌&&◌, bit_and, bit_or, ltb, leb, ◌==◌, ◌!=◌, u32, sub_u32, ◌<<◌, ◌>>>◌,
  if◌then◌else◌,
}
use minimum_tests.Machine.{Bus, Run, ◌>>=◌, ◌>>◌, pure, mmio_read, mmio_write, mrs_cpsr}
use minimum_tests.Runtime.{trace_base, trace_event, require, conformance_fail, test_paddr}
use minimum_tests.Headless.{set_flag}
use minimum_tests.Platform.Mmu.{
  pte_valid, pte_readable, pte_writable, pte_executable, pte_user, mmu_tlbiall,
}
use minimum_tests.Platform.Registers.{
  interrupt_eoi, irq_systick, systick_status, systick_ack, systick_status_pending, rng_base,
}
use minimum_tests.Platform.TrapFrame.{
  TrapFrame, skipped, exception_undefined, exception_svc, exception_prefetch_abort,
  exception_data_abort,
}

abbrev pub data_vaddr : ℕ
data_vaddr = 0x20000000

-- What the linker places: the tops of the stacks, the statics that the processor reads, and the
-- code that traps.
pub record Image : Type 0 where
  pub svc_stack_top : ℕ
  pub irq_stack_top : ℕ
  pub abt_stack_top : ℕ
  pub und_stack_top : ℕ
  pub data_table : ℕ
  pub data_page : ℕ
  pub prefetch_probe : ℕ
  pub user_probe : ℕ

pub record Stages : Type 0 where
  pub undefined_stage : ℕ
  pub abort_stage : ℕ
  pub svc_count : ℕ
  pub irq_count : ℕ
  pub user_device_stage : ℕ
  pub expected_svc_frame : ℕ

-- `sizeof(struct minemu_trap_frame)`
abbrev pub frame_size : ℕ
frame_size = 88

abbrev pub direct_pte : ℕ → ℕ
direct_pte address = u32 (0xc0012000 + bit_and (address >>> 12) 0x3ff * 4)

-- The mode bits of the saved status register.
abbrev pub mode : TrapFrame → ℕ
mode frame = bit_and frame.spsr 0x1f

module _ {D : Type 0} ⦃bus : Bus D⦄ where
  pub require_exact_stack : (frame top code : ℕ) → Run D (Unit {0})
  require_exact_stack frame top code =
      require (frame == sub_u32 top frame_size && bit_and frame 7 == 0) code

  -- The test of `return_lr` for the two kinds of abort.
  pub check_return : TrapFrame → Run D (Unit {0})
  check_return frame =
      if frame.exception_id == exception_data_abort
      then require (frame.return_lr == u32 (frame.fault_pc + 8)) 56
      else if frame.exception_id == exception_prefetch_abort
      then require (frame.return_lr == u32 (frame.fault_pc + 4)) 57
      else pure tt

module _ {D : Type 0} ⦃bus : Bus D⦄ (image : Image) where
  pub svc_dispatch : (address : ℕ) → TrapFrame → Stages → Run D (TrapFrame × Stages)
  svc_dispatch address frame t = do
    require
        (address == t.expected_svc_frame
          && leb (sub_u32 image.svc_stack_top 4096) address
          && ltb address image.svc_stack_top
          && bit_and address 7 == 0)
        59
    require (frame.exception_id == exception_svc) 30
    require (frame.return_lr == u32 (frame.fault_pc + 4) && frame.reserved == 0) 53
    require (mode frame == (if t.svc_count == 0 then 0x13 else 0x10)) 31
    pure (
      (if mode frame == 0x10
          then record frame { spsr = bit_or (bit_and frame.spsr 0xffffffe0) 0x13 }
          else frame),
      record t { svc_count = u32 (t.svc_count + 1) },
    )

  pub irq_dispatch : (address : ℕ) → TrapFrame → Stages → Run D (TrapFrame × Stages)
  unfolding require_exact_stack
  irq_dispatch address frame t = do
    cpsr ← mrs_cpsr
    require_exact_stack address image.irq_stack_top 60
    require (bit_and cpsr 0x80 != 0) 61
    require (frame.exception_id == irq_systick) 32
    require (frame.return_lr == u32 (frame.fault_pc + 4) && frame.reserved == 0) 54
    status ← mmio_read systick_status
    require (bit_and status systick_status_pending != 0) 33
    mmio_write systick_ack 1
    mmio_write interrupt_eoi irq_systick
    pure (frame, record t { irq_count = u32 (t.irq_count + 1) })

  pub undefined_dispatch : (address : ℕ) → TrapFrame → Stages → Run D (TrapFrame × Stages)
  unfolding require_exact_stack
  undefined_dispatch address frame t = do
    require_exact_stack address image.und_stack_top 62
    require (frame.exception_id == exception_undefined) 34
    require (frame.return_lr == u32 (frame.fault_pc + 4) && frame.reserved == 0) 55
    if t.undefined_stage == 1
        then require (mode frame == 0x13) 35
        else if t.undefined_stage == 2
        then require (mode frame == 0x10) 36
        else conformance_fail 37
    pure (frame, record t { undefined_stage = 0 })

  -- The abort that `abort_stage` waits for is repaired in the page tables.
  pub repair : TrapFrame → Stages → Run D (Unit {0})
  unfolding set_flag
  repair frame t =
      if t.abort_stage == 1
      then (do
        require (frame.exception_id == exception_data_abort) 40
        require (frame.dfar == data_vaddr && frame.dfsr == 1) 41
        mmio_write image.data_table (
            bit_or (bit_or (bit_or (test_paddr image.data_page) pte_valid) pte_readable)
              pte_writable))
      else if t.abort_stage == 2
      then (do
        require (frame.exception_id == exception_prefetch_abort) 42
        require (frame.dfar == image.prefetch_probe) 43
        require (frame.dfsr == 0x404) 44
        set_flag (direct_pte image.prefetch_probe) pte_executable)
      else if t.abort_stage == 3
      then (do
        require (frame.exception_id == exception_prefetch_abort) 45
        require (frame.dfar == image.user_probe) 46
        require (frame.dfsr == 0x504) 47
        set_flag (direct_pte image.user_probe) pte_user)
      else (do
        trace_event (
            bit_or (bit_or 0xe0070000 (bit_and frame.exception_id 0xff << 8))
              (bit_and frame.dfsr 0xff))
        trace_event frame.dfar
        conformance_fail 48)

  -- What the dispatcher does behind its assertions on the frame.
  pub serve_abort : TrapFrame → Stages → Run D (TrapFrame × Stages)
  unfolding repair
  serve_abort frame t =
      if t.user_device_stage == 1
        && frame.exception_id == exception_data_abort
        && frame.dfar == rng_base
      then (do
        require (frame.dfsr == 0x102) 50
        pure (skipped frame, record t { user_device_stage = 2 }))
      else if t.user_device_stage == 2
          && frame.exception_id == exception_data_abort
          && frame.dfar == trace_base
      then (do
        require (frame.dfsr == 0x303) 52
        pure (skipped frame, record t { user_device_stage = 3 }))
      else (do repair frame t; mmu_tlbiall; pure (frame, record t { abort_stage = 0 }))

  pub abort_dispatch : (address : ℕ) → TrapFrame → Stages → Run D (TrapFrame × Stages)
  unfolding require_exact_stack check_return serve_abort
  abort_dispatch address frame t = do
    require_exact_stack address image.abt_stack_top 63
    check_return frame
    require (frame.reserved == 0) 58
    serve_abort frame t
