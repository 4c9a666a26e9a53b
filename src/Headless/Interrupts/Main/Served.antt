-- ===== src/Headless/Interrupts/Main/Served.antt =====
-- headless/interrupts: the interrupts that the processor takes in the last wait.
use minimum_tests.Base.{
  ℕ, zero, suc, ◌≤◌, ◌<◌, ◌≡◌, ◌∙◌, inl, inr, refl, arith, true, Bool-cases, List, [], ◌∷◌, bit_and,
  ltb, u32, ◌==◌, ◌!=◌, ◌||◌, if◌then◌else◌,
}
use minimum_tests.Machine.{Bus, Machine, Event, load, store, entered, in_exception, unmasked}
use minimum_tests.Platform.Registers.{interrupt_eoi}
use minimum_tests.Headless.{uart0, uart1, rx_data}
use minimum_tests.Platform.TrapFrame.{TrapFrame}
use minimum_tests.Headless.Ensures.{
  Ensures, Never, waits, returns, bind-Ensures, require-Ensures, require_last-Ensures,
}
use minimum_tests.Headless.Interrupts.{Irqs, noted, irq_dispatch}
use minimum_tests.Headless.Interrupts.Main.{no_irqs, serve, wait_irqs, take_irqs}
use minimum_tests.Headless.Interrupts.Main.Dealt.{dealt, ended}

-- The ends of the interrupts that are noted, behind `log`; there are two at most.
abbrev pub ends : Irqs → List Event → List Event
ends t log =
    if t.irq_count == 0
    then log
    else if t.irq_count == 1
    then ended (t.irq_order 0) log
    else ended (t.irq_order 1) (ended (t.irq_order 0) log)

noted-ends :
    (source : ℕ) (t : Irqs) (log : List Event)
    → t.irq_count < 2
    → ended source (ends t log) ≡ ends (noted source t) log
noted-ends source t log few = ground arith

both :
    (t : Irqs) (log : List Event)
    → t.irq_count ≤ 2
    → 2 ≤ t.irq_count
    → (t.irq_order 0 == 2) ≡ true
    → (t.irq_order 1 == 1) ≡ true
    → ends t log ≡ ended 1 (ended 2 log)
both t log few enough first second = ground arith

-- What holds before each interrupt: `least` and at most two are noted, and they have been ended in
-- their order, behind the dealings `log`.
pub record IsNoted {D : Type 0} (least : ℕ) (log : List Event) (t : Irqs) (s : Machine D)
    : Type 0 where
  pub few : t.irq_count ≤ 2
  pub enough : least ≤ t.irq_count
  pub dealings : dealt s.log ≡ ends t log

module _ {D : Type 0} ⦃bus : Bus D⦄ (least : ℕ) (log : List Event) where
  taken :
      (t : Irqs) (s : Machine D) (source : ℕ)
      → IsNoted least log t s
      → t.irq_count < 2
      → dealt (
          store interrupt_eoi (u32 source)
          ∷ load
              (if source == 1 then rx_data uart0 else rx_data uart1)
              (bus.read s.devices (if source == 1 then rx_data uart0 else rx_data uart1)).0
          ∷ s.log)
        ≡ ends (noted source t) log
  taken t s source h few = elim (Bool-cases (source == 1)) [
    | inl first ↦ rw first (rw (h.dealings) (noted-ends source t log few))
    | inr other ↦ rw other (rw (h.dealings) (noted-ends source t log few))
  ]

  irq_dispatch-IsNoted :
      (frame : TrapFrame) (t : Irqs) (s : Machine D)
      → IsNoted least log t s
      → Ensures ⊥ Never (IsNoted least log) (irq_dispatch frame t s)
  unfolding irq_dispatch
  irq_dispatch-IsNoted frame t s h =
      require-Ensures _ _ _ (bit_and s.cpsr 0x80 != 0) 22 _ _ (λ masked.
        require-Ensures _ _ _ (ltb t.irq_count 2) 20 _ _ (λ few.
          require-Ensures _ _ _ (frame.exception_id == 1 || frame.exception_id == 2) 21 _ _
            (λ known. returns _ _ (record {
              few = ground (arith, h.few);
              enough = ground (arith, h.enough);
              dealings = taken t s frame.exception_id h (ground arith);
            }))))

  taken-IsNoted :
      (frame : TrapFrame) (t : Irqs) (s : Machine D)
      → IsNoted least log t s
      → Ensures ⊥ Never (IsNoted least log) (in_exception (irq_dispatch frame t) s)
  taken-IsNoted frame t s h =
      bind-Ensures _ _ _ (IsNoted least log) _ _ (λ w. w)
        (irq_dispatch-IsNoted frame t (entered s)
          (record { few = h.few; enough = h.enough; dealings = h.dealings }))
        (λ t' m h'.
          returns _ _ (record { few = h'.few; enough = h'.enough; dealings = h'.dealings }))

  pub serve-IsNoted :
      (frames : List TrapFrame) (t : Irqs) (s : Machine D)
      → IsNoted least log t s
      → Ensures ⊥ Never (IsNoted least log) (serve frames t s)
  unfolding serve
  serve-IsNoted [] t s h = returns _ _ h
  serve-IsNoted (frame ∷ frames) t s h =
      bind-Ensures _ _ _ (IsNoted least log) _ _ (λ w. w) (taken-IsNoted frame t s h)
        (λ t' m h'. serve-IsNoted frames t' m h')

  -- The wait is left with both interrupts noted.
  pub wait_irqs-IsNoted :
      (rounds : ℕ) (while_waiting : ℕ → List TrapFrame) (t : Irqs) (s : Machine D)
      → IsNoted least log t s
      → Ensures Unit Never
          (λ after m. IsNoted least log after m × (after.irq_count ≡ 2))
          (wait_irqs rounds while_waiting t s)
  unfolding wait_irqs
  wait_irqs-IsNoted zero while_waiting t s h = waits tt s
  wait_irqs-IsNoted (suc rounds) while_waiting t s h = elim (Bool-cases (ltb t.irq_count 2)) [
    | inl still ↦ rw still (
        bind-Ensures _ _ _ (IsNoted least log) _ _ absurd
          (serve-IsNoted (while_waiting rounds) t s h)
          (λ t' m h'. wait_irqs-IsNoted rounds while_waiting t' m h'))
    | inr over ↦ rw over (returns _ _ (h, ground (arith, h.few)))
  ]

module _ {D : Type 0} ⦃bus : Bus D⦄ where
  -- The last part of the case, from the dealings before it.
  pub take_irqs-Ends :
      (rounds : ℕ) (while_waiting : ℕ → List TrapFrame) (at_mask : List TrapFrame) (s : Machine D)
      → Ensures Unit Never
          (λ done m. dealt m.log ≡ ended 1 (ended 2 (dealt s.log)))
          (take_irqs rounds while_waiting at_mask s)
  unfolding take_irqs
  take_irqs-Ends rounds while_waiting at_mask s =
      bind-Ensures _ _ _ _ _ _ (λ w. w)
        (wait_irqs-IsNoted 0 (dealt s.log) rounds while_waiting no_irqs (unmasked s)
          (record { few = omega arith; enough = omega arith; dealings = refl }))
        (λ t m h.
          bind-Ensures _ _ _ (IsNoted 2 (dealt s.log)) _ _ absurd
            (serve-IsNoted 2 (dealt s.log) at_mask t m
              (record { few = h.0.few; enough = omega (arith, h.1); dealings = h.0.dealings }))
            (λ t' m' h'. require-Ensures _ _ _ (t'.irq_order 0 == 2) 11 _ _ (λ first.
              require_last-Ensures _ _ _ (t'.irq_order 1 == 1) 12 _
                (λ second. h'.dealings ∙ both t' (dealt s.log) h'.few h'.enough first second))))
