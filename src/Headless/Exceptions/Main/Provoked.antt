-- ===== src/Headless/Exceptions/Main/Provoked.antt =====
-- headless/exceptions: what a success of the case says of the processor.
use minimum_tests.Base.{
  ℕ, zero, suc, ◌+◌, ◌≡◌, refl, inl, inr, arith, true, List, Bool-cases, ◌∷◌, ◌==◌, u32, sub_u32,
}
use minimum_tests.Machine.{Bus, store, Machine, Run, ◌>>=◌}
use minimum_tests.Runtime.{trace_base, trace_event, fail_stop}
use minimum_tests.Platform.Mmu.{mmu_tlbiall}
use minimum_tests.Headless.{keep_flags}
use minimum_tests.Headless.Ensures.{
  Ensures, Never, waits, passes, returns, bind-Ensures, require-Ensures, require_last-Ensures,
  for_each-Ensures,
}
use minimum_tests.Headless.Exceptions.{Image, Stages, frame_size}
use minimum_tests.Headless.Exceptions.Main.{
  Trap, World, cleared, serve, wait_irq, map_data_table, provoke, await_tick, kernel_main,
}
use minimum_tests.Headless.Exceptions.Main.Account.{
  total, is_svc, is_undefined, is_abort, IsAccounted, serve-IsAccounted,
}

-- How many undefined instructions and how many aborts are in a list of traps.
abbrev pub Faults : List Trap → (undefineds aborts : ℕ) → Type 0
Faults traps undefineds aborts =
    (total is_undefined traps ≡ undefineds) × (total is_abort traps ≡ aborts)

-- The traps of the script: the faults step by step, and the calls, modulo the word, up to the first
-- `svc` and in all.
pub record IsProvoked (world : World) : Type 0 where
  pub one_call : u32 (total is_svc world.at_svc) ≡ 1
  pub two_calls :
      u32 (
        total is_svc world.at_svc
        + total is_svc world.at_undefined
        + total is_svc world.at_condition_false
        + total is_svc world.at_data
        + total is_svc world.at_prefetch
        + total is_svc world.at_user)
      ≡ 2
  pub at_svc : Faults world.at_svc 0 0
  pub at_undefined : Faults world.at_undefined 1 0
  pub at_condition_false : Faults world.at_condition_false 0 0
  pub at_data : Faults world.at_data 0 1
  pub at_prefetch : Faults world.at_prefetch 0 1
  pub at_user : Faults world.at_user 1 3

-- The last event is the success value of the case.
abbrev pub HasPassed : {D : Type 0} → World → Machine D → Type 0
HasPassed world s = IsProvoked world × (log : _) × (s.log ≡ store trace_base 0x20070001 ∷ log)

-- The counts behind each step, from the accounts of the lists and the assertions.
counted :
    (world : World) (t1 t2 t3 t4 t5 t6 : Stages)
    → IsAccounted world.at_svc
        (record cleared { expected_svc_frame = sub_u32 world.entry_sp frame_size })
        t1
    → IsAccounted world.at_undefined (record t1 { undefined_stage = 1 }) t2
    → IsAccounted world.at_condition_false t2 t3
    → IsAccounted world.at_data (record t3 { abort_stage = 1 }) t4
    → IsAccounted world.at_prefetch (record t4 { abort_stage = 2 }) t5
    → IsAccounted world.at_user
        (record t5 {
          abort_stage = 3;
          undefined_stage = 2;
          user_device_stage = 1;
          expected_svc_frame = sub_u32 world.probe_sp frame_size;
        })
        t6
    → (t1.svc_count == 1) ≡ true
    → (t2.undefined_stage == 0) ≡ true
    → (t4.abort_stage == 0) ≡ true
    → (t5.abort_stage == 0) ≡ true
    → (t6.abort_stage == 0) ≡ true
    → (t6.undefined_stage == 0) ≡ true
    → (t6.svc_count == 2) ≡ true
    → (t6.user_device_stage == 3) ≡ true
    → IsProvoked world
counted world t1 t2 t3 t4 t5 t6 h1 h2 h3 h4 h5 h6 e1 e2 e4 e5 e6 e7 e8 e10 = record {
  one_call = ground (arith, h1);
  two_calls = ground (arith, h1.calls, h2.calls, h3.calls, h4.calls, h5.calls, h6.calls);
  at_svc = (ground (arith, h1), ground (arith, h1));
  at_undefined = (ground (arith, h1, h2), ground (arith, h1, h2));
  at_condition_false = (ground (arith, h1, h2, h3), ground (arith, h1, h2, h3));
  at_data = (ground (arith, h1, h2, h3, h4), ground (arith, h1, h2, h3, h4));
  at_prefetch = (ground (arith, h1, h2, h3, h4, h5), ground (arith, h1, h2, h3, h4, h5));
  at_user = (ground (arith, h6), ground (arith, h6));
}

module _ {D : Type 0} ⦃bus : Bus D⦄ (image : Image) where
  map_data_table-Ensures :
      (s : Machine D) → Ensures ⊥ Never (λ done t. Unit {0}) (map_data_table image s)
  unfolding map_data_table
  map_data_table-Ensures s =
      bind-Ensures _ _ _ (λ done t. Unit {0}) _ _ (λ w. w)
        (for_each-Ensures _ (λ index t. Unit {0}) _ (λ index t h. returns _ _ tt) 1024 0 s tt)
        (λ done t h. returns _ _ tt)

  -- The wait for the timer is left with some count of ticks, or not at all.
  wait_irq-Ensures :
      (rounds : ℕ) (while_waiting : ℕ → List Trap) (t : Stages) (s : Machine D)
      → Ensures Unit Never (λ after m. Unit {0}) (wait_irq image rounds while_waiting t s)
  unfolding wait_irq
  wait_irq-Ensures zero while_waiting t s = waits tt s
  wait_irq-Ensures (suc rounds) while_waiting t s = elim (Bool-cases (t.irq_count == 0)) [
    | inl none ↦ rw none (
        bind-Ensures _ _ _ _ _ _ absurd (serve-IsAccounted image (while_waiting rounds) t s)
          (λ t' m h. wait_irq-Ensures rounds while_waiting t' m))
    | inr some ↦ rw some (returns _ _ tt)
  ]

  -- The step of the script at a list of traps.
  serve-Ensures :
      {A : Type 0} (Waits : Type 0) (Passed : Machine D → Type 0) (Good : A → Machine D → Type 0)
      (traps : List Trap) (t : Stages) (k : Stages → Run D A) (s : Machine D)
      → ((after : Stages) (m : Machine D)
          → IsAccounted traps t after
          → Ensures Waits Passed Good (k after m))
      → Ensures Waits Passed Good ((serve image traps t >>= k) s)
  serve-Ensures Waits Passed Good traps t k s rest =
      bind-Ensures _ _ _ (λ after m. IsAccounted traps t after) _ _ absurd
        (serve-IsAccounted image traps t s) rest

  await_tick-Ensures :
      (rounds : ℕ) (world : World) (t : Stages) (s : Machine D)
      → Ensures Unit Never (λ done m. Unit {0}) (await_tick image rounds world t s)
  unfolding await_tick
  await_tick-Ensures rounds world t s =
      bind-Ensures _ _ _ (λ after m. Unit {0}) _ _ (λ w. w)
        (wait_irq-Ensures rounds world.while_waiting t _)
        (λ t' s1 h.
          serve-Ensures _ _ _ world.at_mask t' _ s1
            (λ t2 s2 h2. require_last-Ensures _ _ _ _ 9 _ (λ e. tt)))

  provoke-Ensures :
      (world : World) (s : Machine D)
      → Ensures ⊥ Never (λ t m. IsProvoked world) (provoke image world s)
  unfolding provoke keep_flags mmu_tlbiall
  provoke-Ensures world s = serve-Ensures _ _ _ world.at_svc _ _ s (λ t1 s1 h1.
      require-Ensures _ _ _ _ 1 _ _ (λ e1.
        serve-Ensures _ _ _ world.at_undefined _ _ s1 (λ t2 s2 h2.
          require-Ensures _ _ _ _ 2 _ _ (λ e2.
            serve-Ensures _ _ _ world.at_condition_false _ _ s2 (λ t3 s3 h3.
              serve-Ensures _ _ _ world.at_data _ _ s3 (λ t4 s4 h4.
                require-Ensures _ _ _ _ 3 _ _ (λ e3. require-Ensures _ _ _ _ 4 _ _ (λ e4.
                  serve-Ensures _ _ _ world.at_prefetch _ _ _ (λ t5 s5 h5.
                    require-Ensures _ _ _ _ 5 _ _ (λ e5.
                      serve-Ensures _ _ _ world.at_user _ _ _ (λ t6 s6 h6.
                        require-Ensures _ _ _ _ 6 _ _ (λ e6. require-Ensures _ _ _ _ 7 _ _ (λ e7.
                          require-Ensures _ _ _ _ 8 _ _ (λ e8.
                            require-Ensures _ _ _ _ 10 _ _ (λ e10. returns _ _ (
                              counted world t1 t2 t3 t4 t5 t6 h1 h2 h3 h4 h5 h6 e1 e2 e4 e5 e6 e7 e8
                                e10))))))))))))))))

  -- On any processor, any devices and any number of rounds, the case stops behind the report of a
  -- failed assertion, is left in its wait for the timer, or stops behind its success value. It
  -- succeeds only if the processor took the faults it provokes, each at its own step and no other:
  -- one undefined instruction where it wants one; none at the coprocessor access whose condition
  -- fails; one abort at the missing page and one at the page that is not executable; and in the
  -- probe from user mode three aborts and one undefined instruction. Of the calls it succeeds only
  -- if there was one at its `svc`, and two in all up to the end of that probe (both modulo the
  -- word); it does not check at which step the second one falls.
  pub kernel_main-IsProvoked :
      (rounds : ℕ) (world : World) (s : Machine D)
      → Ensures Unit (HasPassed world) (λ done m. ⊥) (kernel_main image rounds world s)
  unfolding kernel_main trace_event fail_stop
  kernel_main-IsProvoked rounds world s =
      bind-Ensures _ _ _ (λ done t. Unit {0}) _ _ absurd (map_data_table-Ensures s)
        (λ done s0 h0.
          bind-Ensures _ _ _ (λ t m. IsProvoked world) _ _ absurd (provoke-Ensures world s0)
            (λ t s1 provoked.
              bind-Ensures _ _ _ (λ done m. Unit {0}) _ _ (λ w. w)
                (await_tick-Ensures rounds world t s1)
                (λ done s2 h2. passes _ (provoked, s2.log, refl))))
