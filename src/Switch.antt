-- ===== src/Switch.antt =====
-- examples/svc-context-switch/main.c and examples/irq-context-switch/main.c: dispatchers that
-- choose the trap frame to return to.
pub mod Schedule
pub mod Effects
pub mod Fresh
pub mod Main
mod Tests
use minimum_tests.Base.{ℕ, suc, ◌+◌, ◌*◌, ◌-◌, List, [], ◌∷◌, u32, ◌==◌, if◌then◌else◌, for_loop}
use minimum_tests.Machine.{Bus, Run, ◌>>=◌, ◌>>◌, pure, mmio_read, mmio_write}
use minimum_tests.Platform.TrapFrame.{TrapFrame, exception_svc}

-- A frame pointer is an address, and 0 is null. `task_b` is the address of the task's code.
pub record Program : Type 0 where
  pub task_b : ℕ
  -- `task_b_stack` of the SVC example, `&task_b_storage` of the IRQ example.
  pub task_b_area : ℕ

-- `frame_words` and `task_stack_words`
abbrev pub frame_words : ℕ
frame_words = 22

abbrev pub task_stack_words : ℕ
task_stack_words = 256

-- The statics of the SVC example, and memory as words by their address.
pub record SvcTasks : Type 0 where
  pub task_a_frame : ℕ
  pub task_b_frame : ℕ
  pub words : ℕ → ℕ

abbrev pub put {ℓ} : {A : Type ℓ} → ℕ → A → (ℕ → A) → ℕ → A
put address value contents a = if a == address then value else contents a

-- `task_b_frame[index] = value`
abbrev pub set_word : (frame index value : ℕ) → (ℕ → ℕ) → ℕ → ℕ
set_word frame index value = put (u32 (frame + index * 4)) value

abbrev pub task_b_top : Program → ℕ
task_b_top program = u32 (program.task_b_area + (task_stack_words - frame_words) * 4)

-- The fields by their word in the frame: 13 is `return_lr`, 14 is `spsr`, 15 is `exception_id`.
pub svc_dispatch : Program → (current_frame : ℕ) → SvcTasks → ℕ × SvcTasks
svc_dispatch program current_frame t =
    if t.task_b_frame == 0
    then (let frame = task_b_top program in
        let words = for_loop (λ index. set_word frame index 0) frame_words 0 t.words in
        let words = set_word frame 13 program.task_b words in
        let words = set_word frame 14 (words (u32 (current_frame + 56))) words in
        let words = set_word frame 15 exception_svc words in
        (frame, record { task_a_frame = current_frame; task_b_frame = frame; words = words }))
    else (t.task_a_frame, record t { task_b_frame = current_frame })

-- The statics of the IRQ example, and the trap frames by their address.
pub record IrqTasks : Type 0 where
  pub interrupt_count : ℕ
  pub task_a_frame : ℕ
  pub task_b_frame : ℕ
  pub frames : ℕ → TrapFrame

-- `(struct minemu_trap_frame){0}`
abbrev pub zero_frame : TrapFrame
zero_frame = record {
  r = λ index. 0;
  return_lr = 0;
  spsr = 0;
  exception_id = 0;
  fault_pc = 0;
  dfsr = 0;
  dfar = 0;
  user_sp = 0;
  user_lr = 0;
  reserved = 0;
}

-- Task B's first frame is cleared before `frame->spsr` is read.
abbrev pub with_fresh_frame : Program → (frame source : ℕ) → (ℕ → TrapFrame) → ℕ → TrapFrame
with_fresh_frame program frame source frames =
    let cleared = put program.task_b_area zero_frame frames in
    put program.task_b_area
      (record zero_frame {
        return_lr = u32 (program.task_b + 4);
        spsr = (cleared frame).spsr;
        exception_id = source;
      })
      cleared

-- The choice of a frame at the end of `minemu_irq_dispatch`.
pub choose : Program → (frame source : ℕ) → IrqTasks → ℕ × IrqTasks
choose program frame source t =
    if t.task_b_frame == 0
    then (
      program.task_b_area,
      record t {
        task_a_frame = frame;
        task_b_frame = program.task_b_area;
        frames = with_fresh_frame program frame source t.frames;
      },
    )
    else (t.task_a_frame, record t { task_b_frame = frame })

abbrev pub systick_ack : ℕ
systick_ack = 0x1000100c

abbrev pub uart0_rx_data : ℕ
uart0_rx_data = 0x10004000

abbrev pub uart1_rx_data : ℕ
uart1_rx_data = 0x10005000

abbrev pub block_ack : ℕ
block_ack = 0x10002018

abbrev pub interrupt_eoi : ℕ
interrupt_eoi = 0x1000000c

module _ {D : Type 0} ⦃bus : Bus D⦄ where
  -- The device's own acknowledgement.
  pub acknowledge : (source : ℕ) → Run D (Unit {0})
  acknowledge source =
      if source == 0
      then mmio_write systick_ack 1
      else if source == 1
      then (mmio_read uart0_rx_data >>= λ _. pure tt)
      else if source == 2
      then (mmio_read uart1_rx_data >>= λ _. pure tt)
      else if source == 3
      then mmio_write block_ack 1
      else pure tt

  pub irq_dispatch : Program → (frame : ℕ) → IrqTasks → Run D (ℕ × IrqTasks)
  irq_dispatch program frame t = do
    let source = (t.frames frame).exception_id
    let counted : IrqTasks = record t { interrupt_count = u32 (t.interrupt_count + 1) }
    acknowledge source
    mmio_write interrupt_eoi source
    pure (choose program frame source counted)
