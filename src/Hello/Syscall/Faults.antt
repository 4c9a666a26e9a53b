-- ===== src/Hello/Syscall/Faults.antt =====
-- The three dispatchers together: system calls until a fault of the user program.
use minimum_tests.Base.{
  ℕ, ◌≡◌, inl, inr, refl, ◌∙◌, List, [], ◌∷◌, Bool, true, false, Option, none, some,
}
use minimum_tests.Machine.{Bus, Machine, Run, Result, ret, stopped, stored, pure, ◌>>=◌}
use minimum_tests.Platform.TrapFrame.{TrapFrame}
use minimum_tests.Hello.Syscall.{svc_dispatch, undefined_dispatch, abort_dispatch, serve}
use minimum_tests.Hello.Syscall.Cases.{svc_dispatch-cases}
use minimum_tests.Hello.Syscall.Session.{Sends, transcript, is_nonempty, serve-transcript}

-- A trap of the user program, by the trampoline that takes it.
pub data Trap : Type 0 where
  svc undefined abort : TrapFrame → Trap

module _ {D : Type 0} ⦃bus : Bus D⦄ (fetch : ℕ → ℕ) where
  unfoldable pub dispatch : Trap → (user_syscall_observed : Bool) → Run D Bool
  dispatch (svc frame) user_syscall_observed =
      svc_dispatch fetch frame user_syscall_observed >>= λ answer. pure answer.1
  dispatch (undefined frame) user_syscall_observed =
      undefined_dispatch frame >>= λ _. pure user_syscall_observed
  dispatch (abort frame) user_syscall_observed =
      abort_dispatch frame >>= λ _. pure user_syscall_observed

  unfoldable pub serve_traps : List Trap → (user_syscall_observed : Bool) → Run D Bool
  serve_traps [] user_syscall_observed = pure user_syscall_observed
  serve_traps (trap ∷ traps) user_syscall_observed =
      dispatch trap user_syscall_observed >>= λ observed. serve_traps traps observed

-- The calls before the first fault.
abbrev pub calls_before : List Trap → List TrapFrame
calls_before [] = []
calls_before (svc frame ∷ traps) = frame ∷ calls_before traps
calls_before (undefined frame ∷ traps) = []
calls_before (abort frame ∷ traps) = []

-- What the first fault, if there is one, reports on the trace port.
abbrev pub first_fault : List Trap → Option ℕ
first_fault [] = none
first_fault (svc frame ∷ traps) = first_fault traps
first_fault (undefined frame ∷ traps) = some 0x48454c03
first_fault (abort frame ∷ traps) = some 0x48454c04

module _ {D : Type 0} ⦃bus : Bus D⦄ where
  -- The end of a list of traps: a fault is reported, and then nothing runs.
  abbrev pub ended : (fault : Option ℕ) → (observed : Bool) → Machine D → Result D Bool
  ended none observed s = ret observed s
  ended (some report) observed s = stopped (stored 0x1000f000 report s)

  module _ (fetch : ℕ → ℕ) where
    serve_traps-serve :
        (traps : List Trap) (observed : Bool) (s : Machine D)
        → serve_traps fetch traps observed s
          ≡ (serve fetch (calls_before traps) observed >>= ended (first_fault traps)) s
    unfolding serve_traps dispatch serve undefined_dispatch abort_dispatch
    serve_traps-serve [] observed s = refl
    serve_traps-serve (svc frame ∷ traps) observed s =
        elim (svc_dispatch-cases fetch frame observed s) [
          | inl (ok, answer) ↦ rw answer (serve_traps-serve traps true _)
          | inr (foreign, answer) ↦ rw answer (serve_traps-serve traps observed s)
        ]
    serve_traps-serve (undefined frame ∷ traps) observed s = refl
    serve_traps-serve (abort frame ∷ traps) observed s = refl

    -- Over any list of traps, calls and faults in any order, from the start on: what goes out is
    -- exactly the bytes of the well-formed calls before the first fault, in their order, behind one
    -- single report if there is any. If no fault is among the traps, all are served. Otherwise the
    -- fault's own report, one for an undefined instruction and another for an abort, is the last
    -- thing stored, and the run stops there, whatever traps the list has behind it.
    pub serve_traps-transcript :
        (traps : List Trap) (s : Machine D)
        → (all : List ℕ) × (s' : Machine D) × (serve_traps fetch traps false s
            ≡ ended (first_fault traps) (is_nonempty all) s')
          × Sends fetch (calls_before traps) [] all
          × (s'.log ≡ transcript all s.log)
    serve_traps-transcript traps s =
        let (all, s', run, sends, log) = serve-transcript fetch s.log (calls_before traps) s refl in
        (all, s', serve_traps-serve traps false s ∙ rw run refl, sends, log)
