-- ===== src/Headless/Ensures.antt =====
-- What holds of a run that returns, for code that stops behind a report when an assertion fails.
use minimum_tests.Base.{
  ℕ, zero, suc, ◌+◌, subst, ◌%◌, ◌^◌, ◌≡◌, refl, arith, inl, inr, List, ◌∷◌, Bool, true,
}
use native.Mathlib.Nat.{add-zero}
use minimum_tests.Machine.{
  Bus, Event, store, Machine, stored, Result, ret, Run, stopped, spinning, ◌>>=◌, ◌>>◌, and_then,
}
use minimum_tests.Runtime.{trace_base, require, conformance_fail}
use minimum_tests.Runtime.Conformance.{conformance_fail_lem, require_lem}
use minimum_tests.Headless.{for_each}

-- The last event is the report of a failed assertion.
abbrev pub IsReported : {D : Type 0} → Machine D → Type 0
IsReported s =
    (code : ℕ) × (log : List Event) × (s.log ≡ store trace_base (0xf0000000 + code % 2 ^ 28) ∷ log)

-- The run stops behind a report, or is left in a poll where `Waits` allows that, or stops by
-- itself having passed, or returns a value and a machine that are good.
pub data Ensures {D A : Type 0} (Waits : Type 0) (Passed : Machine D → Type 0)
    (Good : A → Machine D → Type 0) : Result D A → Type 0 where
  reports : (s : Machine D) → IsReported s → Ensures Waits Passed Good (stopped s)
  waits : Waits → (s : Machine D) → Ensures Waits Passed Good (spinning s)
  passes : (s : Machine D) → Passed s → Ensures Waits Passed Good (stopped s)
  returns : (a : A) (s : Machine D) → Good a s → Ensures Waits Passed Good (ret a s)

-- No machine: for code that does not stop by itself.
abbrev pub Never : {D : Type 0} → Machine D → Type 0
Never s = ⊥

-- A script, which returns nothing: it stops behind a report, or with a log that looks like `good`
-- (`view` is what is looked at). It may be left in a poll only if `Waits` holds.
abbrev pub Ends :
    {D : Type 0} (view : List Event → List Event) (good : List Event) (Waits : Type 0)
    → Result D (Unit {0})
    → Type 0
Ends view good Waits = Ensures Waits (λ s. view s.log ≡ good) (λ done s. ⊥)

module _ {D A : Type 0} (Waits : Type 0) (Passed : Machine D → Type 0)
    (Good : A → Machine D → Type 0) where
  -- Two runs in sequence, of which the first does not stop by itself.
  pub bind-Ensures :
      {B Waits' : Type 0} (Between : B → Machine D → Type 0) (r : Result D B) (k : B → Run D A)
      → (Waits' → Waits)
      → Ensures Waits' Never Between r
      → ((b : B) (s : Machine D) → Between b s → Ensures Waits Passed Good (k b s))
      → Ensures Waits Passed Good (and_then r k)
  bind-Ensures Between _ k may (reports s e) rest = reports s e
  bind-Ensures Between _ k may (waits w s) rest = waits (may w) s
  bind-Ensures Between _ k may (passes s e) rest = absurd e
  bind-Ensures Between _ k may (returns b s e) rest = rest b s e

-- A weaker promise.
pub weaken-Ensures :
    {D A Waits : Type 0} {Passed : Machine D → Type 0} (Good Good' : A → Machine D → Type 0)
    (r : Result D A)
    → ((a : A) (s : Machine D) → Good a s → Good' a s)
    → Ensures Waits Passed Good r
    → Ensures Waits Passed Good' r
weaken-Ensures Good Good' _ f (reports s e) = reports s e
weaken-Ensures Good Good' _ f (waits w s) = waits w s
weaken-Ensures Good Good' _ f (passes s e) = passes s e
weaken-Ensures Good Good' _ f (returns a s e) = returns a s (f a s e)

reported_lem :
    {D : Type 0} ⦃bus : Bus D⦄ (code : ℕ) (s : Machine D)
    → IsReported (stored trace_base (0xf0000000 + code % 2 ^ 28) s)
reported_lem code s =
    let word : (0xf0000000 + code % 2 ^ 28) % 2 ^ 32 ≡ 0xf0000000 + code % 2 ^ 28 = omega arith in
    (code, s.log, rw word refl)

module _ {D A : Type 0} ⦃bus : Bus D⦄ (Waits : Type 0) (Passed : Machine D → Type 0)
    (Good : A → Machine D → Type 0) where
  -- An assertion: what follows may rely on it.
  pub require-Ensures :
      (condition : Bool) (code : ℕ) (k : Run D A) (s : Machine D)
      → (condition ≡ true → Ensures Waits Passed Good (k s))
      → Ensures Waits Passed Good ((require condition code >> k) s)
  require-Ensures condition code k s rest = elim (require_lem condition code s) [
    | inl (holds, e) ↦ rw e (rest holds)
    | inr (fails, e) ↦ rw e (reports _ (reported_lem code s))
  ]

  -- The failure that no condition guards, alone and with what would follow it.
  pub conformance_fail-Ensures :
      (code : ℕ) (s : Machine D) → Ensures Waits Passed Good (conformance_fail {A = A} code s)
  conformance_fail-Ensures code s =
      rw (conformance_fail_lem code s) (reports _ (reported_lem code s))

  pub conformance_fail_then-Ensures :
      {B : Type 0} (code : ℕ) (k : B → Run D A) (s : Machine D)
      → Ensures Waits Passed Good ((conformance_fail code >>= k) s)
  conformance_fail_then-Ensures code k s =
      rw (conformance_fail_lem code s) (reports _ (reported_lem code s))

module _ {D : Type 0} ⦃bus : Bus D⦄ (Waits : Type 0) (Passed : Machine D → Type 0)
    (Good : Unit {0} → Machine D → Type 0) where
  -- An assertion that nothing follows.
  pub require_last-Ensures :
      (condition : Bool) (code : ℕ) (s : Machine D)
      → (condition ≡ true → Good tt s)
      → Ensures Waits Passed Good (require condition code s)
  require_last-Ensures condition code s good = elim (require_lem condition code s) [
    | inl (holds, e) ↦ rw e (returns tt s (good holds))
    | inr (fails, e) ↦ rw e (reports _ (reported_lem code s))
  ]

module _ {D : Type 0} (Waits : Type 0) (Inv : ℕ → Machine D → Type 0)
    (body : ℕ → Run D (Unit {0})) where
  -- A loop, by what holds before each of its rounds.
  pub for_each-Ensures :
      ((index : ℕ) (s : Machine D)
        → Inv index s
        → Ensures Waits Never (λ done t. Inv (index + 1) t) (body index s))
      → (count from : ℕ) (s : Machine D) → Inv from s
      → Ensures Waits Never (λ done t. Inv (from + count) t) (for_each body count from s)
  unfolding for_each
  for_each-Ensures step zero from s h = rw add-zero (returns tt s h)
  for_each-Ensures step (suc count) from s h =
      bind-Ensures _ _ _ (λ done t. Inv (from + 1) t) _ _ (λ w. w) (step from s h)
        (λ done t h'.
          subst
            (λ last. Ensures Waits Never (λ done t. Inv last t) (for_each body count (from + 1) t))
            (omega arith) (for_each-Ensures step count (from + 1) t h'))
