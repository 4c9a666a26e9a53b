-- ===== src/Headless/Exceptions/Sound.antt =====
-- The dispatchers return only from a trap that they serve.
use minimum_tests.Base.{ℕ, ◌+◌, ◌≡◌, inl, inr, arith, Bool-cases, ◌==◌, ◌&&◌, u32, ==_iff}
use minimum_tests.Machine.{Bus, ◌>>◌, Run, Machine, controlled, tlbiall}
use minimum_tests.Runtime.{trace_event, trace_base}
use minimum_tests.Platform.Mmu.{mmu_tlbiall}
use minimum_tests.Platform.Registers.{rng_base}
use minimum_tests.Platform.TrapFrame.{TrapFrame, exception_data_abort, exception_prefetch_abort}
use minimum_tests.Headless.Ensures.{
  Ensures, Never, returns, require-Ensures, conformance_fail-Ensures, conformance_fail_then-Ensures,
  bind-Ensures,
}
use minimum_tests.Headless.{set_flag}
use minimum_tests.Headless.Exceptions.{
  Image, Stages, require_exact_stack, check_return, repair, serve_abort, svc_dispatch, irq_dispatch,
  undefined_dispatch, abort_dispatch,
}
use minimum_tests.Headless.Exceptions.Main.{Trap, svc, irq, undefined, abort, dispatch}
use minimum_tests.Headless.Exceptions.Served.{
  IsServed, IsFrame, IsOnStack, call, tick, bad_instruction, device_read, device_write,
  missing_page, not_executable, not_user,
}

module _ {D : Type 0} ⦃bus : Bus D⦄ (image : Image) (address : ℕ) (frame : TrapFrame) (t : Stages)
    (s : Machine D) where
  svc_dispatch_sound :
      Ensures ⊥ Never
        (IsServed image t s (svc address frame))
        (svc_dispatch image address frame t s)
  unfolding svc_dispatch
  svc_dispatch_sound = require-Ensures _ _ _ _ 59 _ _ (λ placed.
      require-Ensures _ _ _ _ 30 _ _ (λ numbered. require-Ensures _ _ _ _ 53 _ _ (λ returning.
        require-Ensures _ _ _ _ 31 _ _ (λ moded. returns _ _ (
          call (ground arith) (ground arith) (ground arith) (ground arith) (ground arith)
            ((==_iff _ _).0 moded))))))

  irq_dispatch_sound :
      Ensures ⊥ Never
        (IsServed image t s (irq address frame))
        (irq_dispatch image address frame t s)
  unfolding irq_dispatch require_exact_stack
  irq_dispatch_sound = require-Ensures _ _ _ _ 60 _ _ (λ placed.
      require-Ensures _ _ _ _ 61 _ _ (λ masked. require-Ensures _ _ _ _ 32 _ _ (λ numbered.
        require-Ensures _ _ _ _ 54 _ _ (λ returning. require-Ensures _ _ _ _ 33 _ _ (λ pending.
          returns _ _ (tick (ground arith) (ground arith) (ground arith) (ground arith)))))))

  undefined_dispatch_sound :
      Ensures ⊥ Never
        (IsServed image t s (undefined address frame))
        (undefined_dispatch image address frame t s)
  unfolding undefined_dispatch require_exact_stack
  undefined_dispatch_sound = require-Ensures _ _ _ _ 62 _ _ (λ placed.
      require-Ensures _ _ _ _ 34 _ _ (λ numbered. require-Ensures _ _ _ _ 55 _ _ (λ returning.
        elim (Bool-cases (t.undefined_stage == 1)) [
          | inl first ↦ rw first (
              require-Ensures _ _ _ _ 35 _ _ (λ moded.
                returns _ _ (bad_instruction (ground arith) (ground arith) (ground arith))))
          | inr not_first ↦ elim (Bool-cases (t.undefined_stage == 2)) [
            | inl second ↦
                rw (not_first, second)
                  (require-Ensures _ _ _ _ 36 _ _ (λ moded.
                    returns _ _ (bad_instruction (ground arith) (ground arith) (ground arith))))
            | inr third ↦ rw (not_first, third) (conformance_fail_then-Ensures _ _ _ 37 _ _)
          ]
        ])))

  -- What the first three assertions of the abort dispatcher establish.
  record IsAbort : Type 0 where
    placed : IsOnStack address image.abt_stack_top
    from_data :
        frame.exception_id ≡ exception_data_abort → frame.return_lr ≡ u32 (frame.fault_pc + 8)
    from_fetch :
        frame.exception_id ≡ exception_prefetch_abort → frame.return_lr ≡ u32 (frame.fault_pc + 4)
    blank : frame.reserved ≡ 0

  data_frame :
      IsAbort → frame.exception_id ≡ exception_data_abort → IsFrame frame exception_data_abort 8
  data_frame h e = record { numbered = e; returning = h.from_data e; blank = h.blank }

  fetch_frame :
      IsAbort
      → frame.exception_id ≡ exception_prefetch_abort
      → IsFrame frame exception_prefetch_abort 4
  fetch_frame h e = record { numbered = e; returning = h.from_fetch e; blank = h.blank }

  -- The machine that a repair leaves, before the TLB is flushed.
  abbrev IsRepaired : Unit {0} → Machine D → Type 0
  IsRepaired done after =
      IsServed image t s (abort address frame) (frame, record t { abort_stage = 0 })
        (controlled tlbiall after)

  repair_sound : IsAbort → Ensures ⊥ Never IsRepaired (repair image frame t s)
  unfolding repair set_flag trace_event
  repair_sound h = elim (Bool-cases (t.abort_stage == 1)) [
    | inl first ↦ rw first (
        require-Ensures _ _ _ _ 40 _ _ (λ is_data. require-Ensures _ _ _ _ 41 _ _ (λ there.
          returns _ _ (
            missing_page h.placed (data_frame h (ground arith)) (ground arith) (ground arith)
              (ground arith)))))
    | inr not_first ↦ elim (Bool-cases (t.abort_stage == 2)) [
      | inl second ↦
          rw (not_first, second)
            (require-Ensures _ _ _ _ 42 _ _ (λ is_fetch. require-Ensures _ _ _ _ 43 _ _ (λ there.
              require-Ensures _ _ _ _ 44 _ _ (λ cause. returns _ _ (
                not_executable h.placed (fetch_frame h (ground arith)) (ground arith) (ground arith)
                  (ground arith))))))
      | inr not_second ↦ elim (Bool-cases (t.abort_stage == 3)) [
        | inl third ↦
            rw (not_first, not_second, third)
              (require-Ensures _ _ _ _ 45 _ _ (λ is_fetch. require-Ensures _ _ _ _ 46 _ _ (λ there.
                require-Ensures _ _ _ _ 47 _ _ (λ cause. returns _ _ (
                  not_user h.placed (fetch_frame h (ground arith)) (ground arith) (ground arith)
                    (ground arith))))))
        | inr none ↦ rw (not_first, not_second, none) (conformance_fail-Ensures _ _ _ 48 _)
      ]
    ]
  ]

  -- What stands behind the first three assertions, device accesses first.
  after_checks_sound :
      IsAbort
      → Ensures ⊥ Never (IsServed image t s (abort address frame)) (serve_abort image frame t s)
  unfolding serve_abort mmu_tlbiall
  after_checks_sound h =
      elim (Bool-cases (
        t.user_device_stage == 1
        && frame.exception_id == exception_data_abort
        && frame.dfar == rng_base)) [
          | inl reads ↦ rw reads (
              require-Ensures _ _ _ _ 50 _ _ (λ cause. returns _ _ (
                device_read h.placed (data_frame h (ground arith)) (ground arith) (ground arith)
                  (ground arith))))
          | inr no_read ↦
              elim (Bool-cases (
                t.user_device_stage == 2
                && frame.exception_id == exception_data_abort
                && frame.dfar == trace_base)) [
                  | inl writes ↦
                      rw (no_read, writes)
                        (require-Ensures _ _ _ _ 52 _ _ (λ cause. returns _ _ (
                          device_write h.placed (data_frame h (ground arith)) (ground arith)
                            (ground arith) (ground arith))))
                  | inr no_write ↦
                      rw (no_read, no_write)
                        (bind-Ensures _ _ _ IsRepaired _ _ (λ w. w) (repair_sound h)
                          (λ done after served. returns _ _ served))
                ]
        ]

  check_return-Ensures :
      {A : Type 0} (Waits : Type 0) (Good : A → Machine D → Type 0) (k : Run D A)
      → ((frame.exception_id ≡ exception_data_abort → frame.return_lr ≡ u32 (frame.fault_pc + 8))
          → (frame.exception_id ≡ exception_prefetch_abort
              → frame.return_lr ≡ u32 (frame.fault_pc + 4))
          → Ensures Waits Never Good (k s))
      → Ensures Waits Never Good ((check_return frame >> k) s)
  unfolding check_return
  check_return-Ensures Waits Good k rest =
      elim (Bool-cases (frame.exception_id == exception_data_abort)) [
        | inl from_data ↦ rw from_data (
            require-Ensures _ _ _ _ 56 _ _
              (λ returning. rest (λ e. ground arith) (λ e. ground arith)))
        | inr not_data ↦ elim (Bool-cases (frame.exception_id == exception_prefetch_abort)) [
          | inl fetch ↦
              rw (not_data, fetch)
                (require-Ensures _ _ _ _ 57 _ _
                  (λ returning. rest (λ e. ground arith) (λ e. ground arith)))
          | inr other ↦ rw (not_data, other) (rest (λ e. ground arith) (λ e. ground arith))
        ]
      ]

  abort_dispatch_sound :
      Ensures ⊥ Never
        (IsServed image t s (abort address frame))
        (abort_dispatch image address frame t s)
  unfolding abort_dispatch require_exact_stack
  abort_dispatch_sound = require-Ensures _ _ _ _ 63 _ _ (λ placed.
      check_return-Ensures _ _ _ (λ from_data from_fetch. require-Ensures _ _ _ _ 58 _ _ (λ blank.
        after_checks_sound (record {
          placed = (ground arith, ground arith);
          from_data = from_data;
          from_fetch = from_fetch;
          blank = ground arith;
        }))))

-- A dispatcher that is handed a trap stops behind the report of a failed assertion, or it returns
-- and the trap is one that the case waits for, with the frame, the stages and the machine that
-- such a trap leaves.
pub dispatch-IsServed :
    {D : Type 0} ⦃bus : Bus D⦄ (image : Image) (trap : Trap) (t : Stages) (s : Machine D)
    → Ensures ⊥ Never (IsServed image t s trap) (dispatch image trap t s)
dispatch-IsServed image (svc address frame) t s = svc_dispatch_sound image address frame t s
dispatch-IsServed image (irq address frame) t s = irq_dispatch_sound image address frame t s
dispatch-IsServed image (undefined address frame) t s =
    undefined_dispatch_sound image address frame t s
dispatch-IsServed image (abort address frame) t s = abort_dispatch_sound image address frame t s
