-- ===== src/Headless/Tells.antt =====
-- What a run does to a view of the log: the stores to one device, say. Runs in sequence compose.
use minimum_tests.Base.{
  ℕ, zero, suc, true, false, ◌∙◌, ap, ◌+◌, ◌<◌, ◌≤◌, ◌≡◌, refl, arith, List, ◌∷◌, Bool, u32, ◌==◌,
  ==_iff, if◌then◌else◌,
}
use minimum_tests.Machine.{Bus, Event, load, store, mmio_write, Machine, Run, ◌>>=◌, ◌>>◌, pure}
use minimum_tests.Runtime.{require, conformance_fail}
use minimum_tests.Headless.{check, for_each}
use minimum_tests.Headless.Ensures.{
  Ensures, Never, returns, bind-Ensures, weaken-Ensures, require_last-Ensures,
  conformance_fail-Ensures,
}

-- A run that does not stop by itself, and may be left in a poll if `Waits` holds: when it returns, `f` is what it has done to the view.
pub record Tells {D A : Type 0} (Waits : Type 0) (view : List Event → List Event) (m : Run D A)
    (f : List Event → List Event) : Type 0 where
  pub tells : (s : Machine D) → Ensures Waits Never (λ a t. view t.log ≡ f (view s.log)) (m s)

module _ {D Waits : Type 0} {view : List Event → List Event} where
  pub seq-Tells :
      {B : Type 0} {m : Run D (Unit {0})} {k : Run D B} {f g : List Event → List Event}
      → Tells Waits view m f
      → Tells Waits view k g
      → Tells Waits view (m >> k) (λ log. g (f log))
  seq-Tells {f} {g} p q = record {
    tells = λ s.
        bind-Ensures _ _ _ _ _ _ (λ w. w) (p.tells s)
          (λ a t e. weaken-Ensures _ _ _ (λ b r e'. e' ∙ ap g e) (q.tells t));
  }

  pub bind-Tells :
      {A B : Type 0} {m : Run D A} {k : A → Run D B} {f g : List Event → List Event}
      → Tells Waits view m f
      → ((a : A) → Tells Waits view (k a) g)
      → Tells Waits view (m >>= k) (λ log. g (f log))
  bind-Tells {f} {g} p q = record {
    tells = λ s.
        bind-Ensures _ _ _ _ _ _ (λ w. w) (p.tells s)
          (λ a t e. weaken-Ensures _ _ _ (λ b r e'. e' ∙ ap g e) ((q a).tells t));
  }

  pub pure-Tells : {A : Type 0} (a : A) → Tells {D = D} Waits view (pure a) (λ log. log)
  pure-Tells a = record { tells = λ s. returns _ _ refl }

  pub if-Tells :
      {A : Type 0} (condition : Bool) {m k : Run D A} {f : List Event → List Event}
      → Tells Waits view m f
      → Tells Waits view k f
      → Tells Waits view (if condition then m else k) f
  if-Tells true p q = p
  if-Tells false p q = q

module _ {D : Type 0} ⦃bus : Bus D⦄ {Waits : Type 0} (view : List Event → List Event) where
  pub require-Tells :
      (condition : Bool) (code : ℕ) → Tells {D = D} Waits view (require condition code) (λ log. log)
  require-Tells condition code = record {
    tells = λ s. require_last-Ensures _ _ _ condition code s (λ e. refl);
  }

  pub conformance_fail-Tells :
      (code : ℕ) → Tells {D = D} {A = Unit {0}} Waits view (conformance_fail code) (λ log. log)
  conformance_fail-Tells code = record { tells = λ s. conformance_fail-Ensures _ _ _ code s }

  -- A loop whose rounds tell nothing.
  pub for_each-Tells :
      (body : ℕ → Run D (Unit {0})) (bound : ℕ)
      → ((index : ℕ) → index < bound → Tells {D = D} Waits view (body index) (λ log. log))
      → (count from : ℕ) → from + count ≤ bound
      → Tells {D = D} Waits view (for_each body count from) (λ log. log)
  unfolding for_each
  for_each-Tells body bound round zero from within = pure-Tells tt
  for_each-Tells body bound round (suc count) from within =
      seq-Tells (round from (omega arith))
        (for_each-Tells body bound round count (from + 1) (omega arith))

-- The whole log as the view: what is stored, and what a register had to hold.
module _ {D : Type 0} ⦃bus : Bus D⦄ {Waits : Type 0} where
  pub mmio_write-Logs :
      (address value : ℕ)
      → Tells {D = D} Waits
          (λ log. log)
          (mmio_write address value)
          (λ log. store address (u32 value) ∷ log)
  mmio_write-Logs address value = record { tells = λ s. returns _ _ refl }

  pub check-Logs :
      (address expected code : ℕ)
      → Tells {D = D} Waits
          (λ log. log)
          (check address expected code)
          (λ log. load address expected ∷ log)
  unfolding check
  check-Logs address expected code = record {
    tells = λ s.
        require_last-Ensures _ _ _ ((bus.read s.devices address).0 == expected) code _
          (λ e. rw ((==_iff (bus.read s.devices address).0 expected).0 e) refl);
  }
