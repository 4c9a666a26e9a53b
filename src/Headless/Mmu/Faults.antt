-- ===== src/Headless/Mmu/Faults.antt =====
-- headless/mmu: what a success of the case says of the processor.
use minimum_tests.Base.{ℕ, ◌≡◌, refl, List, [], ◌∷◌}
use minimum_tests.Machine.{Bus, Event, store, Machine, mmio_read, mmio_write}
use minimum_tests.Runtime.{trace_base, trace_event, fail_stop}
use minimum_tests.Platform.Mmu.{mmu_tlbiall}
use minimum_tests.Platform.TrapFrame.{TrapFrame}
use minimum_tests.Headless.{keep_flags}
use minimum_tests.Headless.Ensures.{
  Ensures, Never, passes, returns, bind-Ensures, require-Ensures, require_last-Ensures,
  for_each-Ensures,
}
use minimum_tests.Headless.Mmu.{
  Image, World, test_vaddr, set_entry, map_table, check_marks, check_faults, kernel_main,
}
use minimum_tests.Headless.Mmu.Retried.{
  taken-one_load, taken-one_store, taken-device_store, unarmed-IsTaken, idle-IsTaken,
  retried-IsTaken,
}
use minimum_tests.Headless.Mmu.Dispatch.{IsRefused}

-- Allowed accesses do not fault, and each refused one faults once, with its cause.
pub record IsFaulting (world : World) : Type 0 where
  pub allowed : (world.at_first_store ≡ []) × (world.at_first_load ≡ [])
  pub one_load : (frame : TrapFrame) × IsRefused frame 2 × (world.at_unreadable ≡ frame ∷ [])
  pub one_store : (frame : TrapFrame) × IsRefused frame 0x203 × (world.at_unwritable ≡ frame ∷ [])
  pub device_store :
      (frame : TrapFrame) × (frames : List TrapFrame) × IsRefused frame 0x203
      × (world.at_device ≡ frame ∷ frames)

-- The last event is the success value of the case.
abbrev pub HasPassed : {D : Type 0} → World → Machine D → Type 0
HasPassed world s =
    IsFaulting world × (log : List Event) × (s.log ≡ store trace_base 0x20060001 ∷ log)

module _ {D : Type 0} ⦃bus : Bus D⦄ (image : Image) where
  map_table-Ensures : (s : Machine D) → Ensures ⊥ Never (λ done t. Unit {0}) (map_table image s)
  unfolding map_table
  map_table-Ensures s =
      bind-Ensures _ _ _ (λ done t. Unit {0}) _ _ (λ w. w)
        (for_each-Ensures _ (λ index t. Unit {0}) _ (λ index t h. returns _ _ tt) 1024 0 s tt)
        (λ done t h. returns _ _ tt)

  check_marks-Ensures :
      (world : World) (s : Machine D)
      → Ensures ⊥ Never
          (λ done m. (world.at_first_store ≡ []) × (world.at_first_load ≡ []))
          (check_marks image world s)
  unfolding check_marks set_entry keep_flags mmu_tlbiall
  check_marks-Ensures world s =
      bind-Ensures _ _ _ _ _ _ (λ w. w)
        (unarmed-IsTaken image (mmio_write test_vaddr 0x12345678) tt (λ t. returns _ _ tt)
          world.at_first_store _)
        (λ r s1 h1. require-Ensures _ _ _ _ 1 _ _ (λ e1. require-Ensures _ _ _ _ 2 _ _ (λ e2.
          require-Ensures _ _ _ _ 3 _ _ (λ e3.
            bind-Ensures _ _ _ (λ (r : ℕ × ℕ) m. (world.at_first_load ≡ []) × (r.1 ≡ 0)) _ _
              (λ w. w)
              (idle-IsTaken image (mmio_read test_vaddr) world.stale (λ t. returns _ _ tt)
                world.at_first_load r.1 _ h1.1)
              (λ r' s2 h2. require-Ensures _ _ _ _ 4 _ _ (λ e4.
                require-Ensures _ _ _ _ 5 _ _
                  (λ e5. require_last-Ensures _ _ _ _ 6 _ (λ e6. (h1.0, h2.0)))))))))

  check_faults-Ensures :
      (world : World) (s : Machine D)
      → world.at_first_store ≡ []
      → world.at_first_load ≡ []
      → Ensures ⊥ Never (λ done m. IsFaulting world) (check_faults image world s)
  unfolding check_faults set_entry mmu_tlbiall
  check_faults-Ensures world s no_store no_load =
      bind-Ensures _ _ _ _ _ _ (λ w. w)
        (retried-IsTaken image (mmio_read test_vaddr) world.stale (λ t. returns _ _ tt)
          world.at_unreadable 1 _)
        (λ r1 s1 h1. require-Ensures _ _ _ _ 7 _ _ (λ e1. require-Ensures _ _ _ _ 8 _ _ (λ e2.
          bind-Ensures _ _ _ _ _ _ (λ w. w)
            (retried-IsTaken image (mmio_write test_vaddr 0x87654321) tt (λ t. returns _ _ tt)
              world.at_unwritable 2 _)
            (λ r2 s2 h2. require-Ensures _ _ _ _ 9 _ _ (λ e3. require-Ensures _ _ _ _ 10 _ _ (λ e4.
              bind-Ensures _ _ _ _ _ _ (λ w. w)
                (retried-IsTaken image (mmio_write test_vaddr 0) tt (λ t. returns _ _ tt)
                  world.at_device 3 _)
                (λ r3 s3 h3. require_last-Ensures _ _ _ _ 11 _ (λ e5. record {
                  allowed = (no_store, no_load);
                  one_load = taken-one_load h1 refl e2;
                  one_store = taken-one_store h2 refl e4;
                  device_store = taken-device_store h3 refl e5;
                }))))))))

  -- On any processor and any devices, the case stops behind the report of a failed assertion or
  -- behind its success value. It succeeds only if the first store and load, which the entry allows,
  -- took no abort, the load from the unreadable page and the store to the unwritable one took one
  -- abort each, with a read and a write protection fault as its cause, and the store to system ROM
  -- took a write protection fault, behind which it was given up.
  pub kernel_main-IsFaulting :
      (world : World) (s : Machine D)
      → Ensures ⊥ (HasPassed world) (λ done m. ⊥) (kernel_main image world s)
  unfolding kernel_main trace_event fail_stop
  kernel_main-IsFaulting world s =
      bind-Ensures _ _ _ (λ done t. Unit {0}) _ _ (λ w. w) (map_table-Ensures s)
        (λ done s0 h0.
          bind-Ensures _ _ _ _ _ _ (λ w. w) (check_marks-Ensures world s0)
            (λ done s1 h1.
              bind-Ensures _ _ _ _ _ _ (λ w. w) (check_faults-Ensures world s1 h1.0 h1.1)
                (λ done s2 h2. passes _ (h2, s2.log, refl))))
