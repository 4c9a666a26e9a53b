-- ===== src/Hello/Syscall/Tests.antt =====
-- A call that sends an "A", and one with a wrong number.
use minimum_tests.Base.{ℕ, ◌≡◌, ◌⊎◌, refl, some, List, [], ◌∷◌, true, false, ◌==◌, if◌then◌else◌}
use minimum_tests.Machine.{Machine, ret, stopped, stored}
use minimum_tests.Machine.Sample.{quiet, idle}
use minimum_tests.Platform.TrapFrame.{TrapFrame, answered}
use minimum_tests.Hello.Syscall.{svc_dispatch, undefined_dispatch, is_foreign, is_unknown}
use minimum_tests.Hello.Syscall.Cases.{IsPutchar, reported, svc_dispatch-cases}
use minimum_tests.Hello.Syscall.Session.{Sends, transcript, is_nonempty}
use minimum_tests.Hello.Syscall.Faults.{
  Trap, svc, undefined, dispatch, serve_traps, ended, serve_traps-transcript,
}

abbrev call : (number : ℕ) → TrapFrame
call number = record {
  r = λ index. if index == 0 then 65 else (if index == 7 then number else 0);
  return_lr = 0x00400004;
  spsr = 0x10;
  exception_id = 0xfffffffd;
  fault_pc = 0x00400000;
  dfsr = 0;
  dfar = 0;
  user_sp = 0x00800000;
  user_lr = 0;
  reserved = 0;
}

-- The user's code: `svc #0` everywhere.
abbrev fetch : ℕ → ℕ
fetch a = 0xef000000

svc_dispatch-cases_example :
    (IsPutchar fetch (call 1)
      × (svc_dispatch fetch (call 1) false idle
          ≡ ret (answered 0 (call 1), true) (stored 0x10004004 65 (reported false idle))))
    ⊎ ((¬ IsPutchar fetch (call 1))
        × (svc_dispatch fetch (call 1) false idle ≡ ret (answered 0xffffffff (call 1), false) idle))
svc_dispatch-cases_example = svc_dispatch-cases fetch (call 1) false idle

-- A wrong call, a right one, and an undefined instruction, behind which the second "A" is not sent.
abbrev faulting : List Trap
faulting = svc (call 2) ∷ svc (call 1) ∷ undefined (call 1) ∷ svc (call 1) ∷ []

serve_traps_test :
    serve_traps fetch faulting false idle
    ≡ stopped (stored 0x1000f000 0x48454c03 (stored 0x10004004 65 (reported false idle)))
unfolding serve_traps dispatch svc_dispatch undefined_dispatch is_foreign is_unknown
serve_traps_test = refl

serve_traps-transcript_example :
    (all : List ℕ) × (s' : Machine (Unit {0})) × (serve_traps fetch faulting false idle
      ≡ ended (some 0x48454c03) (is_nonempty all) s')
    × Sends fetch (call 2 ∷ call 1 ∷ []) [] all
    × (s'.log ≡ transcript all [])
serve_traps-transcript_example = serve_traps-transcript fetch faulting idle
