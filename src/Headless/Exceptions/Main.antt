-- ===== src/Headless/Exceptions/Main.antt =====
-- headless/exceptions/main.c: the script, on a processor that traps where it likes.
pub mod Account
pub mod Provoked
mod Tests
use minimum_tests.Base.{
  ℕ, zero, suc, ◌+◌, ◌*◌, Bool, bit_and, bit_or, u32, sub_u32, ◌>>>◌, ◌==◌, if◌then◌else◌, List, [],
  ◌∷◌,
}
use minimum_tests.Machine.{
  Bus, Run, in_exception, spinning, ◌>>=◌, ◌>>◌, pure, mmio_read, mmio_write, cpsid_i, cpsie_i,
}
use minimum_tests.Runtime.{trace_event, fail_stop, require, test_paddr}
use minimum_tests.Platform.Mmu.{pte_valid, mmu_tlbiall}
use minimum_tests.Platform.Registers.{
  interrupt_enable, systick_period, systick_control, systick_control_enable,
  systick_control_irq_enable,
}
use minimum_tests.Platform.TrapFrame.{TrapFrame}
use minimum_tests.Headless.{for_each, keep_flags, root_table}
use minimum_tests.Headless.Exceptions.{
  Image, Stages, data_vaddr, frame_size, direct_pte, svc_dispatch, irq_dispatch, undefined_dispatch,
  abort_dispatch,
}

-- A trap: its vector, and the frame that the trampoline passes.
pub data Trap : Type 0 where
  svc irq undefined abort : (address : ℕ) → TrapFrame → Trap

-- The traps that the processor takes while it runs an instruction or a probe of the script, and
-- the two values of the stack pointer that the script reads.
pub record World : Type 0 where
  pub entry_sp : ℕ
  pub probe_sp : ℕ
  pub at_svc : List Trap
  pub at_undefined : List Trap
  pub at_condition_false : List Trap
  pub at_data : List Trap
  pub at_prefetch : List Trap
  pub at_user : List Trap
  -- In the wait for the timer, by the rounds left; and before IRQ is masked behind it.
  pub while_waiting : ℕ → List Trap
  pub at_mask : List Trap

-- The statics before the script starts.
abbrev pub cleared : Stages
cleared = record {
  undefined_stage = 0;
  abort_stage = 0;
  svc_count = 0;
  irq_count = 0;
  user_device_stage = 0;
  expected_svc_frame = 0;
}

module _ {D : Type 0} ⦃bus : Bus D⦄ (image : Image) where
  -- `dispatch trap stages` on its own vector
  abbrev pub dispatch : Trap → Stages → Run D (TrapFrame × Stages)
  dispatch (svc address frame) = svc_dispatch image address frame
  dispatch (irq address frame) = irq_dispatch image address frame
  dispatch (undefined address frame) = undefined_dispatch image address frame
  dispatch (abort address frame) = abort_dispatch image address frame

  -- The traps of a list, one behind the other.
  pub serve : List Trap → Stages → Run D Stages
  serve [] t = pure t
  serve (trap ∷ traps) t = do (frame, t') ← in_exception (dispatch trap t); serve traps t'

  -- `while (irq_count == 0U)`, with a number of rounds.
  pub wait_irq : (rounds : ℕ) (while_waiting : ℕ → List Trap) → Stages → Run D Stages
  unfolding serve
  wait_irq zero while_waiting t = spinning
  wait_irq (suc rounds) while_waiting t =
      let rest = serve (while_waiting rounds) t >>= wait_irq rounds while_waiting in
      if t.irq_count == 0 then rest else pure t

  -- The page of data is not mapped yet: its table is empty.
  pub map_data_table : Run D (Unit {0})
  map_data_table = do
    for_each (λ index. mmio_write (u32 (image.data_table + index * 4)) 0) 1024 0
    mmio_write (root_table + (data_vaddr >>> 22) * 4)
        (bit_or (test_paddr image.data_table) pte_valid)

  -- Every exception but the timer's.
  pub provoke : World → Run D Stages
  unfolding keep_flags serve mmu_tlbiall
  provoke world = do
    t ←
        serve world.at_svc
          (record cleared { expected_svc_frame = sub_u32 world.entry_sp frame_size })
    require (t.svc_count == 1) 1
    t ← serve world.at_undefined (record t { undefined_stage = 1 })
    require (t.undefined_stage == 0) 2
    t ← serve world.at_condition_false t
    t ← serve world.at_data (record t { abort_stage = 1 })
    word ← mmio_read data_vaddr
    require (word == 0) 3
    require (t.abort_stage == 0) 4
    keep_flags (direct_pte image.prefetch_probe) 0xfffffff7
    mmu_tlbiall
    t ← serve world.at_prefetch (record t { abort_stage = 2 })
    require (t.abort_stage == 0) 5
    keep_flags (direct_pte image.user_probe) 0xfffffffb
    mmu_tlbiall
    t ← serve world.at_user (record t {
      abort_stage = 3;
      undefined_stage = 2;
      user_device_stage = 1;
      expected_svc_frame = sub_u32 world.probe_sp frame_size;
    })
    require (t.abort_stage == 0) 6
    require (t.undefined_stage == 0) 7
    require (t.svc_count == 2) 8
    require (t.user_device_stage == 3) 10
    pure t

  pub await_tick : (rounds : ℕ) → World → Stages → Run D (Unit {0})
  unfolding serve wait_irq
  await_tick rounds world t = do
    mmio_write interrupt_enable 1
    mmio_write systick_period 64
    mmio_write systick_control (bit_or systick_control_enable systick_control_irq_enable)
    cpsie_i
    t ← wait_irq rounds world.while_waiting t
    t ← serve world.at_mask t
    cpsid_i
    require (t.irq_count == 1) 9

  pub kernel_main : (rounds : ℕ) → World → Run D (Unit {0})
  unfolding map_data_table provoke await_tick trace_event fail_stop
  kernel_main rounds world = do
    map_data_table
    t ← provoke world
    await_tick rounds world t
    trace_event 0x20070001
    fail_stop
