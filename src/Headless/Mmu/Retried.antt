-- ===== src/Headless/Mmu/Retried.antt =====
-- headless/mmu: an instruction and the aborts that it takes.
use minimum_tests.Base.{
  ℕ, ◌+◌, ◌≡◌, refl, arith, u32, true, false, List, [], ◌∷◌, ◌==◌, if◌then◌else◌,
}
use minimum_tests.Machine.{Bus, Machine, Run, pure}
use minimum_tests.Platform.TrapFrame.{TrapFrame}
use minimum_tests.Headless.Ensures.{Ensures, Never, returns, bind-Ensures, weaken-Ensures}
use minimum_tests.Headless.Mmu.{Image, retried}
use minimum_tests.Headless.Mmu.Dispatch.{
  IsRefused, IsRepaired, made_readable, made_writable, skips, abort_dispatch-IsRepaired,
}

-- The aborts that an instruction takes, by the stage before and behind it.
pub data IsTaken : List TrapFrame → ℕ → ℕ → Type 0 where
  no_fault : (stage : ℕ) → IsTaken [] stage stage
  unreadable : {frame : TrapFrame} → IsRefused frame 2 → IsTaken (frame ∷ []) 1 0
  unwritable : {frame : TrapFrame} → IsRefused frame 0x203 → IsTaken (frame ∷ []) 2 0
  skipped :
      {frame : TrapFrame} {frames : List TrapFrame}
      → IsRefused frame 0x203
      → IsTaken (frame ∷ frames) 3 0

-- What a stage that is over says of its aborts.
pub taken-one_load :
    {frames : List TrapFrame} {stage after : ℕ}
    → IsTaken frames stage after
    → stage ≡ 1
    → (after == 0) ≡ true
    → (frame : TrapFrame) × IsRefused frame 2 × (frames ≡ frame ∷ [])
taken-one_load (no_fault stage) e over = absurd (ground arith)
taken-one_load (unreadable {frame} f) e over = (frame, f, refl)
taken-one_load (unwritable f) e over = absurd (omega arith)
taken-one_load (skipped f) e over = absurd (omega arith)

pub taken-one_store :
    {frames : List TrapFrame} {stage after : ℕ}
    → IsTaken frames stage after
    → stage ≡ 2
    → (after == 0) ≡ true
    → (frame : TrapFrame) × IsRefused frame 0x203 × (frames ≡ frame ∷ [])
taken-one_store (no_fault stage) e over = absurd (ground arith)
taken-one_store (unreadable f) e over = absurd (omega arith)
taken-one_store (unwritable {frame} f) e over = (frame, f, refl)
taken-one_store (skipped f) e over = absurd (omega arith)

pub taken-device_store :
    {frames : List TrapFrame} {stage after : ℕ}
    → IsTaken frames stage after
    → stage ≡ 3
    → (after == 0) ≡ true
    → (frame : TrapFrame) × (rest : List TrapFrame) × IsRefused frame 0x203
      × (frames ≡ frame ∷ rest)
taken-device_store (no_fault stage) e over = absurd (ground arith)
taken-device_store (unreadable f) e over = absurd (omega arith)
taken-device_store (unwritable f) e over = absurd (omega arith)
taken-device_store (skipped {frame} {frames} f) e over = (frame, frames, f, refl)

unarmed :
    {D : Type 0} ⦃bus : Bus D⦄ (image : Image) (frame : TrapFrame) (s : Machine D)
    (r : TrapFrame × ℕ) (after : Machine D)
    → ¬ (IsRepaired image frame 0 s r after)
unarmed image frame s _ _ (made_readable f e) = omega arith
unarmed image frame s _ _ (made_writable f e) = omega arith
unarmed image frame s _ _ (skips f e) = omega arith

-- The address past the instruction is another one.
skip-differs : (n : ℕ) → (u32 (n + 4) == n) ≡ false
skip-differs n = ground arith

same : (n : ℕ) → (n == n) ≡ true
same n = ground arith

module _ {D A : Type 0} ⦃bus : Bus D⦄ (image : Image) (instruction : Run D A) (stale : A)
    (total : (s : Machine D) → Ensures ⊥ Never (λ a m. Unit {0}) (instruction s)) where
  -- With no stage armed there is no abort to serve.
  pub unarmed-IsTaken :
      (frames : List TrapFrame) (s : Machine D)
      → Ensures ⊥ Never
          (λ r m. (frames ≡ []) × (r.1 ≡ 0))
          (retried image frames 0 instruction stale s)
  unfolding retried
  unarmed-IsTaken [] s =
      bind-Ensures _ _ _ _ _ _ (λ w. w) (total s) (λ a m h. returns _ _ (refl, refl))
  unarmed-IsTaken (frame ∷ frames) s =
      bind-Ensures _ _ _ _ _ _ (λ w. w) (abort_dispatch-IsRepaired image frame 0 s)
        (λ r m repaired. absurd (unarmed image frame _ r m repaired.1))

  pub idle-IsTaken :
      (frames : List TrapFrame) (stage : ℕ) (s : Machine D)
      → stage ≡ 0
      → Ensures ⊥ Never
          (λ r m. (frames ≡ []) × (r.1 ≡ 0))
          (retried image frames stage instruction stale s)
  idle-IsTaken frames stage s e = rw e (unarmed-IsTaken frames s)

  -- What follows one abort: another try, or the instruction is given up.
  again : TrapFrame → List TrapFrame → TrapFrame × ℕ → Run D (A × ℕ)
  again frame frames (frame', stage') =
      let rest = retried image frames stage' instruction stale in
      if frame'.return_lr == frame.return_lr then rest else pure (stale, stage')

  step-IsTaken :
      (frame : TrapFrame) (frames : List TrapFrame) (stage : ℕ) (s : Machine D) (r : TrapFrame × ℕ)
      (after : Machine D)
      → IsRepaired image frame stage s r after
      → Ensures ⊥ Never (λ q m. IsTaken (frame ∷ frames) stage q.1) (again frame frames r after)
  unfolding again
  step-IsTaken frame frames stage s _ _ (made_readable f e) = rw (same frame.return_lr) (
      weaken-Ensures _ _ _ (λ q m done. rw (e, done.0, done.1) (unreadable f))
        (unarmed-IsTaken frames _))
  step-IsTaken frame frames stage s _ _ (made_writable f e) = rw (same frame.return_lr) (
      weaken-Ensures _ _ _ (λ q m done. rw (e, done.0, done.1) (unwritable f))
        (unarmed-IsTaken frames _))
  step-IsTaken frame frames stage s _ _ (skips f e) =
      rw (skip-differs frame.return_lr) (returns _ _ (rw e (skipped f)))

  pub retried-IsTaken :
      (frames : List TrapFrame) (stage : ℕ) (s : Machine D)
      → Ensures ⊥ Never
          (λ r m. IsTaken frames stage r.1)
          (retried image frames stage instruction stale s)
  unfolding retried again
  retried-IsTaken [] stage s =
      bind-Ensures _ _ _ _ _ _ (λ w. w) (total s) (λ a m h. returns _ _ (no_fault stage))
  retried-IsTaken (frame ∷ frames) stage s =
      bind-Ensures _ _ _ _ _ _ (λ w. w) (abort_dispatch-IsRepaired image frame stage s)
        (λ r m repaired. step-IsTaken frame frames stage _ r m repaired.1)
