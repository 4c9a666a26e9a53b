-- ===== src/Switch/Tests.antt =====
-- Three traps, and five rounds of the SVC example.
use minimum_tests.Base.{inr, ℕ, ◌<◌, ◌≡◌, ◌≢◌, refl, [], ◌∷◌, arith}
use minimum_tests.Machine.{Machine, ret, stored}
use minimum_tests.Machine.Sample.{prompt, ready}
use minimum_tests.Switch.{
  svc_dispatch, Program, SvcTasks, IrqTasks, task_b_top, zero_frame, choose, irq_dispatch,
}
use minimum_tests.Switch.Effects.{Acknowledged, irq_dispatch-Acknowledged}
use minimum_tests.Switch.Main.{svc_main}
use minimum_tests.Switch.Fresh.{IsFresh, svc_dispatch-IsFresh}
use minimum_tests.Switch.Schedule.{
  svc_returns, always, AreFrames, svc_returns_lem, serve_irqs, serve_irqs_lem,
}

abbrev example : Program
example = record { task_b = 0xc0010100; task_b_area = 0xc0012000 }

abbrev no_tasks : SvcTasks
no_tasks = record { task_a_frame = 0; task_b_frame = 0; words = λ a. 0 }

abbrev no_irqs : IrqTasks
no_irqs = record {
  interrupt_count = 0;
  task_a_frame = 0;
  task_b_frame = 0;
  frames = λ a. record zero_frame { spsr = 0x13; exception_id = 2 };
}

positive : {n : ℕ} → 0 < n → n ≢ 0
positive lt e = absurd (omega arith)

two_frames : AreFrames (0xc0012f00 ∷ 0xc0020f00 ∷ [])
two_frames = (positive (omega arith), (positive (omega arith), tt))

svc_returns_lem_example :
    svc_returns example (0xc0020f00 ∷ 0xc0012f00 ∷ 0xc0020f00 ∷ []) no_tasks
    ≡ task_b_top example ∷ always 0xc0020f00 (0xc0012f00 ∷ 0xc0020f00 ∷ [])
svc_returns_lem_example =
    svc_returns_lem example 0xc0020f00 (0xc0012f00 ∷ 0xc0020f00 ∷ []) no_tasks two_frames refl
      (positive (omega arith))

serve_irqs_lem_example :
    (s' : Machine ℕ) × (serve_irqs example (0xc0020f00 ∷ 0xc0012f00 ∷ 0xc0020f00 ∷ []) no_irqs ready
      ≡ ret (0xc0012000 ∷ always 0xc0020f00 (0xc0012f00 ∷ 0xc0020f00 ∷ [])) s')
serve_irqs_lem_example =
    serve_irqs_lem example 0xc0020f00 (0xc0012f00 ∷ 0xc0020f00 ∷ []) no_irqs ready two_frames refl
      (positive (omega arith))

irq_dispatch-Acknowledged_example :
    (acked : Machine ℕ) × Acknowledged ready 2 acked
    × (irq_dispatch example 0xc0020f00 no_irqs ready
        ≡ ret
            (choose example 0xc0020f00 2 (record no_irqs { interrupt_count = 1 }))
            (stored 0x1000000c 2 acked))
irq_dispatch-Acknowledged_example = irq_dispatch-Acknowledged example 0xc0020f00 no_irqs ready

svc_dispatch-IsFresh_example :
    let (returned, after) = svc_dispatch example 0xc0020f00 no_tasks in
    (returned ≡ task_b_top example)
    × (after.task_a_frame ≡ 0xc0020f00)
    × (after.task_b_frame ≡ task_b_top example)
    × IsFresh example no_tasks 0xc0020f00 after.words
svc_dispatch-IsFresh_example =
    svc_dispatch-IsFresh example no_tasks 0xc0020f00 (omega arith) refl (inr (omega arith))
      (omega arith)

-- Task A, task B once, and task A for good.
five_rounds :
    svc_main example 5 0xc0020f00 no_tasks
    ≡ task_b_top example ∷ 0xc0020f00 ∷ 0xc0020f00 ∷ 0xc0020f00 ∷ 0xc0020f00 ∷ []
unfolding svc_main svc_dispatch
five_rounds = refl
