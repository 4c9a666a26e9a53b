-- ===== src/Headless/Exceptions/Main/Account.antt =====
-- Each exception that the script arms is taken once: the counts of the traps of a list against the
-- stages before and behind it.
use minimum_tests.Base.{ℕ, ◌+◌, ◌≡◌, ◌≤◌, inl, inr, arith, List, [], ◌∷◌, ◌==◌, if◌then◌else◌, u32}
use minimum_tests.Machine.{entered, in_exception, Bus, Machine}
use minimum_tests.Platform.TrapFrame.{TrapFrame}
use minimum_tests.Headless.Ensures.{Ensures, Never, returns, bind-Ensures, weaken-Ensures}
use minimum_tests.Headless.Exceptions.{Image, Stages}
use minimum_tests.Headless.Exceptions.Main.{Trap, svc, irq, undefined, abort, dispatch, serve}
use minimum_tests.Headless.Exceptions.Served.{
  IsServed, call, tick, bad_instruction, device_read, device_write, missing_page, not_executable,
  not_user,
}
use minimum_tests.Headless.Exceptions.Sound.{dispatch-IsServed}

-- How many traps of a list go through each vector.
abbrev pub total : (Trap → ℕ) → List Trap → ℕ
total weight [] = 0
total weight (trap ∷ traps) = weight trap + total weight traps

abbrev pub is_svc : Trap → ℕ
is_svc (svc address frame) = 1
is_svc _ = 0

abbrev pub is_irq : Trap → ℕ
is_irq (irq address frame) = 1
is_irq _ = 0

abbrev pub is_undefined : Trap → ℕ
is_undefined (undefined address frame) = 1
is_undefined _ = 0

abbrev pub is_abort : Trap → ℕ
is_abort (abort address frame) = 1
is_abort _ = 0

-- How many exceptions the stages still wait for.
abbrev pub armed_undefined : Stages → ℕ
armed_undefined t = if t.undefined_stage == 0 then 0 else 1

abbrev pub armed_devices : ℕ → ℕ
armed_devices stage = if stage == 1 then 2 else if stage == 2 then 1 else 0

abbrev pub armed_abort : Stages → ℕ
armed_abort t = (if t.abort_stage == 0 then 0 else 1) + armed_devices t.user_device_stage

pub record IsAccounted (traps : List Trap) (t after : Stages) : Type 0 where
  pub calls : u32 (t.svc_count + total is_svc traps) ≡ u32 after.svc_count
  pub ticks : u32 (t.irq_count + total is_irq traps) ≡ u32 after.irq_count
  pub undefineds : total is_undefined traps + armed_undefined after ≡ armed_undefined t
  pub aborts : total is_abort traps + armed_abort after ≡ armed_abort t
  pub devices : armed_devices after.user_device_stage ≤ armed_devices t.user_device_stage

join :
    (trap : Trap) (traps : List Trap) (t between after : Stages)
    → IsAccounted (trap ∷ []) t between
    → IsAccounted traps between after
    → IsAccounted (trap ∷ traps) t after
join trap traps t between after a b = record {
  calls = omega (arith, a.calls, b.calls);
  ticks = omega (arith, a.ticks, b.ticks);
  undefineds = omega (arith, a.undefineds, b.undefineds);
  aborts = omega (arith, a.aborts, b.aborts);
  devices = omega (arith, a.devices, b.devices);
}

module _ {D : Type 0} ⦃bus : Bus D⦄ (image : Image) where
  IsServed-IsAccounted :
      (t : Stages) (s : Machine D) (trap : Trap) (r : TrapFrame × Stages) (after : Machine D)
      → IsServed image t s trap r after
      → IsAccounted (trap ∷ []) t r.1
  IsServed-IsAccounted t s _ _ _ (call e low high aligned f m) = ground arith
  IsServed-IsAccounted t s _ _ _ (tick placed m f pending) = ground arith
  IsServed-IsAccounted t s _ _ _ (bad_instruction placed f (inl expected)) = ground arith
  IsServed-IsAccounted t s _ _ _ (bad_instruction placed f (inr expected)) = ground arith
  IsServed-IsAccounted t s _ _ _ (device_read placed f stage there cause) = ground arith
  IsServed-IsAccounted t s _ _ _ (device_write placed f stage there cause) = ground arith
  IsServed-IsAccounted t s _ _ _ (missing_page placed f stage there cause) = ground arith
  IsServed-IsAccounted t s _ _ _ (not_executable placed f stage there cause) = ground arith
  IsServed-IsAccounted t s _ _ _ (not_user placed f stage there cause) = ground arith

  taken-IsAccounted :
      (trap : Trap) (t : Stages) (s : Machine D)
      → Ensures ⊥ Never
          (λ r m. IsAccounted (trap ∷ []) t r.1)
          (in_exception (dispatch image trap t) s)
  taken-IsAccounted trap t s =
      bind-Ensures _ _ _ (IsServed image t (entered s) trap) _ _ (λ w. w)
        (dispatch-IsServed image trap t (entered s))
        (λ r m served. returns _ _ (IsServed-IsAccounted t (entered s) trap r m served))

  -- A list of traps that are all served uses up exactly what its stages had armed: each undefined
  -- instruction and each abort was waited for, and each call and tick is counted, modulo the word.
  pub serve-IsAccounted :
      (traps : List Trap) (t : Stages) (s : Machine D)
      → Ensures ⊥ Never (λ after m. IsAccounted traps t after) (serve image traps t s)
  unfolding serve
  serve-IsAccounted [] t s = returns _ _ (ground arith)
  serve-IsAccounted (trap ∷ traps) t s =
      bind-Ensures _ _ _ (λ r m. IsAccounted (trap ∷ []) t r.1) _ _ (λ w. w)
        (taken-IsAccounted trap t s)
        (λ r m served.
          weaken-Ensures _ _ _ (λ after n. join trap traps t r.1 after served)
            (serve-IsAccounted traps r.1 m))
