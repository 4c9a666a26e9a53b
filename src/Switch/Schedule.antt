-- ===== src/Switch/Schedule.antt =====
-- Which frames a sequence of traps returns to.
use minimum_tests.Base.{ℕ, ◌+◌, ◌%◌, ◌^◌, ◌≡◌, ◌≢◌, refl, ap, List, [], ◌∷◌, ◌==◌, false, arith}
use minimum_tests.Machine.{Bus, Machine, ret, stored, ◌>>=◌, pure, Run}
use minimum_tests.Switch.Effects.{irq_dispatch-Acknowledged}
use minimum_tests.Switch.{
  Program, SvcTasks, IrqTasks, svc_dispatch, choose, irq_dispatch, task_b_top,
}

-- The frames that are returned to when the SVC dispatcher is entered with each frame of a list.
pub svc_returns : Program → List ℕ → SvcTasks → List ℕ
svc_returns program [] t = []
svc_returns program (frame ∷ frames) t =
    (svc_dispatch program frame t).0 ∷ svc_returns program frames (svc_dispatch program frame t).1

-- One frame for each frame of the list.
abbrev pub always : ℕ → List ℕ → List ℕ
always frame [] = []
always frame (_ ∷ frames) = frame ∷ always frame frames

abbrev pub AreFrames : List ℕ → Type 0
AreFrames [] = Unit
AreFrames (frame ∷ frames) = (frame ≢ 0) × AreFrames frames

returns_later :
    (program : Program) (frames : List ℕ) (t : SvcTasks)
    → AreFrames frames
    → t.task_b_frame ≢ 0
    → svc_returns program frames t ≡ always t.task_a_frame frames
unfolding svc_returns svc_dispatch
returns_later program [] t ok b = refl
returns_later program (frame ∷ frames) t (here, ok) b = rw later (
    ap (λ (l : List ℕ). t.task_a_frame ∷ l)
      (returns_later program frames (record t { task_b_frame = frame }) ok here))
  where
    later : (t.task_b_frame == 0) ≡ false
    later = ground arith

-- If task B has no frame yet, its stack is not at 0 and no later frame is at 0: the first trap of
-- the SVC example is returned from into task B, on a frame at the top of its stack. Every later
-- trap, of whichever task, is returned from into the frame of that first trap: after its first turn
-- task B is never given another one.
pub svc_returns_lem :
    (program : Program) (first : ℕ) (frames : List ℕ) (t : SvcTasks)
    → AreFrames frames
    → t.task_b_frame ≡ 0
    → task_b_top program ≢ 0
    → svc_returns program (first ∷ frames) t ≡ task_b_top program ∷ always first frames
unfolding svc_returns svc_dispatch
svc_returns_lem program first frames t ok none_yet stack =
    rw none_yet
      (ap (λ (l : List ℕ). task_b_top program ∷ l) (returns_later program frames _ ok stack))

choose_later :
    (program : Program) (frame source : ℕ) (t : IrqTasks)
    → t.task_b_frame ≢ 0
    → choose program frame source t ≡ (t.task_a_frame, record t { task_b_frame = frame })
unfolding choose
choose_later program frame source t b =
    let later : (t.task_b_frame == 0) ≡ false = ground arith in rw later refl

choose_first :
    (program : Program) (frame source : ℕ) (t : IrqTasks)
    → t.task_b_frame ≡ 0
    → (u : IrqTasks) × (choose program frame source t ≡ (program.task_b_area, u))
      × (u.task_a_frame ≡ frame)
      × (u.task_b_frame ≡ program.task_b_area)
unfolding choose
choose_first program frame source t e = rw e (_, refl, refl, refl)

-- The IRQ example, on any devices: the frames that a list of interrupts is returned from into.
module _ {D : Type 0} ⦃bus : Bus D⦄ where
  pub serve_irqs : Program → List ℕ → IrqTasks → Run D (List ℕ)
  serve_irqs program [] t = pure []
  serve_irqs program (frame ∷ frames) t = irq_dispatch program frame t >>= λ answer.
      serve_irqs program frames answer.1 >>= λ later. pure (answer.0 ∷ later)

  interrupts_later :
      (program : Program) (frames : List ℕ) (t : IrqTasks) (s : Machine D)
      → AreFrames frames
      → t.task_b_frame ≢ 0
      → (s' : Machine D) × (serve_irqs program frames t s ≡ ret (always t.task_a_frame frames) s')
  unfolding serve_irqs
  interrupts_later program [] t s ok b = (s, refl)
  interrupts_later program (frame ∷ frames) t s (here, ok) b =
      let (acked, a, e) = irq_dispatch-Acknowledged program frame t s in
      let counted : IrqTasks = record t { interrupt_count = (t.interrupt_count + 1) % 2 ^ 32 } in
      let (s', rest) =
        interrupts_later program frames (record counted { task_b_frame = frame })
          (stored 0x1000000c (t.frames frame).exception_id acked) ok here in
      (s', rw (e, choose_later program frame (t.frames frame).exception_id counted b, rest) refl)

  -- Under the same conditions the IRQ example, on any devices, alternates no more than the SVC one:
  -- the first interrupt is returned from into task B, and every later one into the frame of that
  -- first interrupt.
  pub serve_irqs_lem :
      (program : Program) (first : ℕ) (frames : List ℕ) (t : IrqTasks) (s : Machine D)
      → AreFrames frames
      → t.task_b_frame ≡ 0
      → program.task_b_area ≢ 0
      → (s' : Machine D) × (serve_irqs program (first ∷ frames) t s
          ≡ ret (program.task_b_area ∷ always first frames) s')
  unfolding serve_irqs
  serve_irqs_lem program first frames t s ok none_yet area =
      let (acked, a, e) = irq_dispatch-Acknowledged program first t s in
      let counted : IrqTasks = record t { interrupt_count = (t.interrupt_count + 1) % 2 ^ 32 } in
      let (u, chosen, task_a, task_b) =
        choose_first program first (t.frames first).exception_id counted none_yet in
      let (s', rest) =
        interrupts_later program frames u (stored 0x1000000c (t.frames first).exception_id acked) ok
          (rw task_b area) in
      (s', rw (e, chosen, rest, task_a) refl)
