-- ===== src/Headless/RngTrace.antt =====
-- headless/rng-trace: when it reports success.
use minimum_tests.Base.{ap, List, ◌∷◌}
use minimum_tests.Machine.{Bus, Event, load, store, Machine}
use minimum_tests.Runtime.{trace_event, fail_stop}
use minimum_tests.Headless.{rng_seed, rng_data, rng_state, rng_checks, rng_trace_main}
use minimum_tests.Headless.Ensures.{Ends, passes, bind-Ensures}
use minimum_tests.Headless.Tells.{Tells, seq-Tells, mmio_write-Logs, check-Logs}

-- What each register has to answer, and what is stored, newest first.
abbrev pub rng_checked : List Event → List Event
rng_checked before =
    load 0x10003008 0x155b24a3
    ∷ load 0x10003000 0x12345678
    ∷ load 0x10003004 0x155b24a3
    ∷ load 0x10003004 0x87985aa5
    ∷ load 0x10003008 0x12345678
    ∷ load 0x10003000 0x12345678
    ∷ store 0x10003000 0x12345678
    ∷ load 0x10003008 0x4d454d55
    ∷ load 0x10003000 0x4d454d55
    ∷ store 0x10003000 0
    ∷ load 0x10003008 0x38784b1a
    ∷ load 0x10003000 0x4d454d55
    ∷ load 0x10003004 0x38784b1a
    ∷ load 0x10003004 0x791c7b62
    ∷ load 0x10003008 0x4d454d55
    ∷ load 0x10003000 0x4d454d55
    ∷ before

-- The run that the case expects, with its three success values.
abbrev pub rng_transcript : List Event → List Event
rng_transcript before =
    store 0x1000f000 0x20020003
    ∷ store 0x1000f000 0x20020002
    ∷ store 0x1000f000 0x20020001
    ∷ rng_checked before

rng_checks-Logs : {D : Type 0} ⦃bus : Bus D⦄ → Tells {D = D} ⊥ (λ log. log) rng_checks rng_checked
unfolding rng_checks
rng_checks-Logs = seq-Tells (check-Logs rng_seed 0x4d454d55 1) (
    seq-Tells (check-Logs rng_state 0x4d454d55 2) (
      seq-Tells (check-Logs rng_data 0x791c7b62 3) (
        seq-Tells (check-Logs rng_data 0x38784b1a 4) (
          seq-Tells (check-Logs rng_seed 0x4d454d55 5) (
            seq-Tells (check-Logs rng_state 0x38784b1a 6) (
              seq-Tells (mmio_write-Logs rng_seed 0) (
                seq-Tells (check-Logs rng_seed 0x4d454d55 7) (
                  seq-Tells (check-Logs rng_state 0x4d454d55 8) (
                    seq-Tells (mmio_write-Logs rng_seed 0x12345678) (
                      seq-Tells (check-Logs rng_seed 0x12345678 9) (
                        seq-Tells (check-Logs rng_state 0x12345678 10) (
                          seq-Tells (check-Logs rng_data 0x87985aa5 11) (
                            seq-Tells (check-Logs rng_data 0x155b24a3 12) (
                              seq-Tells (check-Logs rng_seed 0x12345678 13)
                                (check-Logs rng_state 0x155b24a3 14)))))))))))))))

-- On any devices the program stops: behind the report of a failed assertion, or having seen and
-- done exactly what the case expects of the generator, with the three success values at the end.
pub rng_trace_main-Ends :
    {D : Type 0} ⦃bus : Bus D⦄ (s : Machine D)
    → Ends (λ log. log) (rng_transcript s.log) ⊥ (rng_trace_main s)
unfolding rng_trace_main trace_event fail_stop
rng_trace_main-Ends s =
    bind-Ensures _ _ _ _ _ _ (λ w. w) (rng_checks-Logs.tells s)
      (λ done t e. passes _ (
        ap
          (λ (l : List Event).
            store 0x1000f000 0x20020003
            ∷ store 0x1000f000 0x20020002
            ∷ store 0x1000f000 0x20020001
            ∷ l)
          e))
