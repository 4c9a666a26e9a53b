-- ===== src/Switch/Main.antt =====
-- The kernels' main functions of both examples: one that makes system calls, and one that its timer
-- interrupts.
use minimum_tests.Base.{
  ℕ, zero, suc, [], ap, refl, ◌==◌, false, arith, ◌≡◌, ◌≢◌, List, ◌∷◌, bit_or, ◌<<◌,
}
use minimum_tests.Machine.{Bus, Machine, Run, ret, ◌>>◌, mmio_write, cpsie_i}
use minimum_tests.Platform.Registers.{
  interrupt_enable, irq_systick, systick_period, systick_control, systick_control_enable,
  systick_control_periodic, systick_control_irq_enable,
}
use minimum_tests.Switch.{Program, SvcTasks, IrqTasks, svc_dispatch, task_b_top}
use minimum_tests.Switch.Schedule.{always, AreFrames, serve_irqs, serve_irqs_lem}

-- `rounds` rounds of the endless loop of `svc #0` in `minemu_kernel_main` and of the one in `task_b`,
-- which has the same body: the frames that the calls are returned from into. The first call pushes
-- its frame at `frame`. svc.S pushes a frame where it has popped the one before, so the frame that a
-- call is returned from into is the one that the next call makes.
unfoldable pub svc_main : Program → (rounds frame : ℕ) → SvcTasks → List ℕ
svc_main program zero frame t = []
svc_main program (suc rounds) frame t =
    let (next, u) = svc_dispatch program frame t in next ∷ svc_main program rounds next u

abbrev repeated : (rounds frame : ℕ) → List ℕ
repeated zero frame = []
repeated (suc rounds) frame = frame ∷ repeated rounds frame

task_a_only :
    (program : Program) (rounds frame : ℕ) (t : SvcTasks)
    → frame ≢ 0
    → t.task_a_frame ≢ 0
    → t.task_b_frame ≢ 0
    → svc_main program rounds frame t ≡ repeated rounds t.task_a_frame
unfolding svc_main svc_dispatch
task_a_only program zero frame t here a b = refl
task_a_only program (suc rounds) frame t here a b = rw later (
    ap (λ (l : List ℕ). t.task_a_frame ∷ l)
      (task_a_only program rounds t.task_a_frame (record t { task_b_frame = frame }) a a here))
  where
    later : (t.task_b_frame == 0) ≡ false
    later = ground arith

-- If task B has no frame yet and neither its stack nor the first frame is at 0, then in any
-- number of rounds the first call is returned from into task B, and every later one into the frame
-- of the first.
svc_main_lem :
    (program : Program) (rounds first : ℕ) (t : SvcTasks)
    → first ≢ 0
    → t.task_b_frame ≡ 0
    → task_b_top program ≢ 0
    → svc_main program (suc rounds) first t ≡ task_b_top program ∷ repeated rounds first
unfolding svc_main svc_dispatch
svc_main_lem program rounds first t here none_yet stack = rw none_yet (
    ap (λ (l : List ℕ). task_b_top program ∷ l)
      (task_a_only program rounds (task_b_top program) _ stack here stack))

module _ {D : Type 0} ⦃bus : Bus D⦄ where
  pub start_timer : Run D (Unit {0})
  start_timer = do
    mmio_write interrupt_enable (1 << irq_systick)
    mmio_write systick_period 100
    mmio_write systick_control
        (bit_or (bit_or systick_control_enable systick_control_periodic) systick_control_irq_enable)
    cpsie_i

  -- The endless loop behind the start is left only by interrupts: `frames` are those at which it is,
  -- or at which task B is.
  pub irq_main : Program → (frames : List ℕ) → IrqTasks → Run D (List ℕ)
  unfolding start_timer
  irq_main program frames t = do start_timer; serve_irqs program frames t

  -- The schedule is that of the dispatcher, from the start of the program on.
  irq_main_lem :
      (program : Program) (first : ℕ) (frames : List ℕ) (t : IrqTasks) (s : Machine D)
      → AreFrames frames
      → t.task_b_frame ≡ 0
      → program.task_b_area ≢ 0
      → (s' : Machine D) × (irq_main program (first ∷ frames) t s
          ≡ ret (program.task_b_area ∷ always first frames) s')
  unfolding irq_main start_timer
  irq_main_lem program first frames t s ok none_yet area =
      serve_irqs_lem program first frames t _ ok none_yet area
