-- ===== src/Headless/Block/Told.antt =====
-- What a program tells the block controller: its stores to the controller's registers.
use minimum_tests.Base.{ℕ, ◌/◌, refl, List, [], ◌∷◌, Bool, ◌==◌, if◌then◌else◌, u32}
use minimum_tests.Machine.{Bus, Event, store, mmio_read, mmio_write}
use minimum_tests.Headless.{check}
use minimum_tests.Headless.Tells.{Tells, bind-Tells, require-Tells}
use minimum_tests.Headless.Ensures.{returns}

abbrev pub is_block : ℕ → Bool
is_block address = address / 0x1000 == 0x10002

abbrev pub told : List Event → List Event
told [] = []
told (store address value ∷ log) =
    let rest = told log in if is_block address then store address value ∷ rest else rest
told (_ ∷ log) = told log

-- One store, by where it goes.
abbrev pub adding : (address value : ℕ) → List Event → List Event
adding address value log = if is_block address then store address (u32 value) ∷ log else log

module _ {D : Type 0} ⦃bus : Bus D⦄ where
  pub mmio_write-Tells :
      (address value : ℕ)
      → Tells {D = D} Unit told (mmio_write address value) (adding address value)
  mmio_write-Tells address value = record { tells = λ s. returns _ _ refl }

  pub mmio_read-Tells : (address : ℕ) → Tells {D = D} Unit told (mmio_read address) (λ log. log)
  mmio_read-Tells address = record { tells = λ s. returns _ _ refl }

  pub check-Tells :
      (address expected code : ℕ)
      → Tells {D = D} Unit told (check address expected code) (λ log. log)
  unfolding check
  check-Tells address expected code =
      bind-Tells (mmio_read-Tells address) (λ value. require-Tells told (value == expected) code)
