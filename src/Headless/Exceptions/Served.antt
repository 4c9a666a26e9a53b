-- ===== src/Headless/Exceptions/Served.antt =====
-- What each dispatcher of the case serves: the traps, and what they leave.
use minimum_tests.Base.{
  ℕ, ◌+◌, ◌≡◌, ◌≢◌, ◌≤◌, ◌<◌, ◌⊎◌, bit_and, bit_or, u32, sub_u32, ◌==◌, if◌then◌else◌,
}
use minimum_tests.Machine.{Bus, Machine, stored, controlled, tlbiall}
use minimum_tests.Runtime.{trace_base, test_paddr}
use minimum_tests.Platform.Mmu.{pte_valid, pte_readable, pte_writable, pte_executable, pte_user}
use minimum_tests.Platform.Registers.{interrupt_eoi, systick_status, systick_ack, rng_base}
use minimum_tests.Platform.TrapFrame.{
  skipped, TrapFrame, exception_undefined, exception_svc, exception_prefetch_abort,
  exception_data_abort,
}
use minimum_tests.Headless.{word_at, loaded, flagged}
use minimum_tests.Headless.Exceptions.Main.{Trap, svc, irq, undefined, abort}
use minimum_tests.Headless.Exceptions.{Image, Stages, data_vaddr, frame_size, direct_pte, mode}

-- The exception's number, its return address past the faulting instruction, and the blank word.
pub record IsFrame (frame : TrapFrame) (id offset : ℕ) : Type 0 where
  pub numbered : frame.exception_id ≡ id
  pub returning : frame.return_lr ≡ u32 (frame.fault_pc + offset)
  pub blank : frame.reserved ≡ 0

-- The frame fills the first place of its stack, which starts aligned.
abbrev pub IsOnStack : (address top : ℕ) → Type 0
IsOnStack address top = (address ≡ sub_u32 top frame_size) × (bit_and address 7 ≡ 0)

-- The mode that the stage expects.
abbrev pub IsExpectedMode : (stage mode : ℕ) → Type 0
IsExpectedMode stage m = ((stage ≡ 1) × (m ≡ 0x13)) ⊎ ((stage ≡ 2) × (m ≡ 0x10))

-- The frame that the SVC dispatcher returns: a call from user mode returns to supervisor mode.
abbrev pub privileged : TrapFrame → TrapFrame
privileged frame =
    if mode frame == 0x10
    then record frame { spsr = bit_or (bit_and frame.spsr 0xffffffe0) 0x13 }
    else frame

-- The entry that maps the page of data.
abbrev pub data_entry : Image → ℕ
data_entry image =
    bit_or (bit_or (bit_or (test_paddr image.data_page) pte_valid) pte_readable) pte_writable

module _ {D : Type 0} ⦃bus : Bus D⦄ where
  abbrev pub acknowledged : Machine D → Machine D
  acknowledged s = stored interrupt_eoi 0 (stored systick_ack 1 (loaded systick_status s))

module _ {D : Type 0} ⦃bus : Bus D⦄ (image : Image) where
  pub data IsServed (t : Stages) (s : Machine D)
      : Trap → TrapFrame × Stages → Machine D → Type 0 where
    call :
        {address : ℕ} {frame : TrapFrame}
        → address ≡ t.expected_svc_frame
        → sub_u32 image.svc_stack_top 4096 ≤ address
        → address < image.svc_stack_top
        → bit_and address 7 ≡ 0
        → IsFrame frame exception_svc 4
        → mode frame ≡ (if t.svc_count == 0 then 0x13 else 0x10)
        → IsServed t s
            (svc address frame)
            (privileged frame, record t { svc_count = u32 (t.svc_count + 1) })
            s
    tick :
        {address : ℕ} {frame : TrapFrame}
        → IsOnStack address image.irq_stack_top
        → bit_and s.cpsr 0x80 ≢ 0
        → IsFrame frame 0 4
        → bit_and (word_at systick_status s) 1 ≢ 0
        → IsServed t s
            (irq address frame)
            (frame, record t { irq_count = u32 (t.irq_count + 1) })
            (acknowledged s)
    bad_instruction :
        {address : ℕ} {frame : TrapFrame}
        → IsOnStack address image.und_stack_top
        → IsFrame frame exception_undefined 4
        → IsExpectedMode t.undefined_stage (mode frame)
        → IsServed t s (undefined address frame) (frame, record t { undefined_stage = 0 }) s
    -- User mode reads a device, and then writes one: the instruction is skipped.
    device_read :
        {address : ℕ} {frame : TrapFrame}
        → IsOnStack address image.abt_stack_top
        → IsFrame frame exception_data_abort 8
        → t.user_device_stage ≡ 1
        → frame.dfar ≡ rng_base
        → frame.dfsr ≡ 0x102
        → IsServed t s (abort address frame) (skipped frame, record t { user_device_stage = 2 }) s
    device_write :
        {address : ℕ} {frame : TrapFrame}
        → IsOnStack address image.abt_stack_top
        → IsFrame frame exception_data_abort 8
        → t.user_device_stage ≡ 2
        → frame.dfar ≡ trace_base
        → frame.dfsr ≡ 0x303
        → IsServed t s (abort address frame) (skipped frame, record t { user_device_stage = 3 }) s
    -- The three repairs: the entry is written, and the TLB flushed behind it.
    missing_page :
        {address : ℕ} {frame : TrapFrame}
        → IsOnStack address image.abt_stack_top
        → IsFrame frame exception_data_abort 8
        → t.abort_stage ≡ 1
        → frame.dfar ≡ data_vaddr
        → frame.dfsr ≡ 1
        → IsServed t s
            (abort address frame)
            (frame, record t { abort_stage = 0 })
            (controlled tlbiall (stored image.data_table (data_entry image) s))
    not_executable :
        {address : ℕ} {frame : TrapFrame}
        → IsOnStack address image.abt_stack_top
        → IsFrame frame exception_prefetch_abort 4
        → t.abort_stage ≡ 2
        → frame.dfar ≡ image.prefetch_probe
        → frame.dfsr ≡ 0x404
        → IsServed t s
            (abort address frame)
            (frame, record t { abort_stage = 0 })
            (controlled tlbiall (flagged (direct_pte image.prefetch_probe) pte_executable s))
    not_user :
        {address : ℕ} {frame : TrapFrame}
        → IsOnStack address image.abt_stack_top
        → IsFrame frame exception_prefetch_abort 4
        → t.abort_stage ≡ 3
        → frame.dfar ≡ image.user_probe
        → frame.dfsr ≡ 0x504
        → IsServed t s
            (abort address frame)
            (frame, record t { abort_stage = 0 })
            (controlled tlbiall (flagged (direct_pte image.user_probe) pte_user s))
