-- ===== src/Headless/Mmu/Dispatch.antt =====
-- headless/mmu: what the abort dispatcher repairs.
use minimum_tests.Base.{ℕ, ◌≡◌, refl, inl, inr, arith, Bool-cases, bit_and, ◌==◌, ◌!=◌}
use minimum_tests.Machine.{Bus, Machine, tlbiall, controlled}
use minimum_tests.Runtime.{trace_event}
use minimum_tests.Platform.Mmu.{pte_readable, pte_writable, mmu_tlbiall}
use minimum_tests.Platform.TrapFrame.{TrapFrame, skipped, exception_data_abort}
use minimum_tests.Headless.{set_flag, word_at, loaded, flagged}
use minimum_tests.Headless.Ensures.{
  Ensures, Never, returns, bind-Ensures, require-Ensures, conformance_fail-Ensures,
}
use minimum_tests.Headless.Mmu.{
  Image, test_vaddr, marks, require_data_abort, repair, abort_dispatch,
}

-- An abort at the test page, with its cause.
pub record IsRefused (frame : TrapFrame) (cause : ℕ) : Type 0 where
  pub numbered : frame.exception_id ≡ exception_data_abort
  pub there : frame.dfar ≡ test_vaddr
  pub caused : frame.dfsr ≡ cause

module _ {D : Type 0} ⦃bus : Bus D⦄ (image : Image) (frame : TrapFrame) (stage : ℕ) where
  -- How the dispatcher returns, from the machine behind its look at the entry.
  pub data IsRepaired (s : Machine D) : TrapFrame × ℕ → Machine D → Type 0 where
    made_readable :
        IsRefused frame 2
        → stage ≡ 1
        → IsRepaired s (frame, 0) (controlled tlbiall (flagged image.table pte_readable s))
    made_writable :
        IsRefused frame 0x203
        → stage ≡ 2
        → IsRepaired s (frame, 0) (controlled tlbiall (flagged image.table pte_writable s))
    skips :
        IsRefused frame 0x203 → stage ≡ 3 → IsRepaired s (skipped frame, 0) (controlled tlbiall s)

  abbrev IsRepair : Machine D → TrapFrame → Machine D → Type 0
  IsRepair s frame' after = IsRepaired s (frame', 0) (controlled tlbiall after)

  repair-IsRepair :
      (s : Machine D)
      → frame.exception_id ≡ exception_data_abort
      → frame.dfar ≡ test_vaddr
      → Ensures ⊥ Never (IsRepair s) (repair image frame stage s)
  unfolding repair set_flag
  repair-IsRepair s numbered there = elim (Bool-cases (stage == 1)) [
    | inl first ↦ rw first (
        require-Ensures _ _ _ _ 23 _ _ (λ caused. returns _ _ (
          made_readable (record { numbered = numbered; there = there; caused = ground arith })
            (ground arith))))
    | inr not_first ↦ elim (Bool-cases (stage == 2)) [
      | inl second ↦
          rw (not_first, second)
            (require-Ensures _ _ _ _ 24 _ _ (λ caused. returns _ _ (
              made_writable (record { numbered = numbered; there = there; caused = ground arith })
                (ground arith))))
      | inr not_second ↦ elim (Bool-cases (stage == 3)) [
        | inl third ↦
            rw (not_first, not_second, third)
              (require-Ensures _ _ _ _ 25 _ _ (λ caused. returns _ _ (
                skips (record { numbered = numbered; there = there; caused = ground arith })
                  (ground arith))))
        | inr none ↦ rw (not_first, not_second, none) (conformance_fail-Ensures _ _ _ 26 _)
      ]
    ]
  ]

  require_data_abort-Ensures :
      (s : Machine D)
      → Ensures ⊥ Never
          (λ done m. (frame.exception_id ≡ exception_data_abort) × (m ≡ s))
          (require_data_abort frame s)
  unfolding require_data_abort trace_event
  require_data_abort-Ensures s = elim (Bool-cases (frame.exception_id != exception_data_abort)) [
    | inl other ↦ rw other (conformance_fail-Ensures _ _ _ 20 _)
    | inr same ↦ rw same (returns _ _ (ground arith, refl))
  ]

  -- The dispatcher stops behind a report, or it was handed a data abort at the test page whose
  -- entry has neither mark, with the cause of its stage. At the first stage it makes the page
  -- readable, at the second writable, at the third it moves the return address past the
  -- instruction; it flushes the TLB behind that, and no fault is expected any more.
  pub abort_dispatch-IsRepaired :
      (s : Machine D)
      → Ensures ⊥ Never
          (λ r after.
            (bit_and (word_at image.table s) marks ≡ 0) × IsRepaired (loaded image.table s) r after)
          (abort_dispatch image frame stage s)
  unfolding abort_dispatch mmu_tlbiall
  abort_dispatch-IsRepaired s =
      bind-Ensures _ _ _ _ _ _ (λ w. w) (require_data_abort-Ensures s)
        (λ done m numbered. rw (numbered.1) (
          require-Ensures _ _ _ _ 21 _ _ (λ there. require-Ensures _ _ _ _ 22 _ _ (λ unmarked.
            bind-Ensures _ _ _ (IsRepair (loaded image.table s)) _ _ (λ w. w)
              (repair-IsRepair (loaded image.table s) numbered.0 (ground arith))
              (λ frame' after repaired. returns _ _ (ground arith, repaired))))))
