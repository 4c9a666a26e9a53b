-- ===== src/Kernel/Accept.antt =====
-- When the baseline kernel reports success.
use minimum_tests.Base.{
  ℕ, ◌≡◌, ◌≢◌, ◌⊎◌, inl, inr, refl, List, [], ◌∷◌, true, false, arith, Bool-cases,
}
use minimum_tests.Machine.{Bus, Machine, ret, stopped, stored}
use minimum_tests.Runtime.{trace_base}
use minimum_tests.Platform.BootInfo.{BootInfo}
use minimum_tests.Kernel.{handoff_is_bad, check_bss, kernel_main}

-- Every word is zero.
abbrev pub AreZero : List ℕ → Type 0
AreZero [] = Unit
AreZero (word ∷ words) = (word ≡ 0) × AreZero words

-- What the interface between firmware and kernel promises, field by field.
pub record IsHandedOver (boot_info : ℕ) (info : BootInfo) (initialized_data : ℕ)
    (zeroed_bss : List ℕ) : Type 0 where
  pub pointer : boot_info ≡ 0xc0007000
  pub magic : info.magic ≡ 0x4d424f4f
  pub version : info.version ≡ 1
  pub size : info.size ≡ 64
  pub rom : info.system_rom_base ≡ 0x08000000
  pub image : info.image_size ≢ 0
  pub modules : info.module_count ≡ 1
  pub table : info.module_table_offset ≢ 0
  pub vaddr : info.direct_map_vaddr ≡ 0xc0000000
  pub paddr : info.direct_map_paddr ≡ 0x40000000
  pub map_size : info.direct_map_size ≡ 0x04000000
  pub initialised : initialized_data ≡ 0x13579bdf
  pub bss : AreZero zeroed_bss

module _ {D : Type 0} ⦃bus : Bus D⦄ (s : Machine D) where
  abbrev pub traced : ℕ → Machine D
  traced value = stored trace_base value s

  check_bss-cases :
      (words : List ℕ)
      → (AreZero words × (check_bss words s ≡ ret tt s))
        ⊎ ((¬ AreZero words) × (check_bss words s ≡ stopped (traced 0xb007bad1)))
  unfolding check_bss
  check_bss-cases [] = inl (tt, refl)
  check_bss-cases (word ∷ words) = elim (check_bss-cases words) [
    | inl (z, e) ↦ ground arith
    | inr (nz, e) ↦ ground arith
  ]

  good :
      (boot_info : ℕ) (info : BootInfo) (initialized_data : ℕ) (words : List ℕ)
      → handoff_is_bad boot_info info initialized_data ≡ false
      → AreZero words
      → IsHandedOver boot_info info initialized_data words
  unfolding handoff_is_bad
  good boot_info info initialized_data words h z = ground arith

  bad :
      (boot_info : ℕ) (info : BootInfo) (initialized_data : ℕ) (words : List ℕ)
      → handoff_is_bad boot_info info initialized_data ≡ true
      → ¬ IsHandedOver boot_info info initialized_data words
  unfolding handoff_is_bad
  bad boot_info info initialized_data words h over = ground arith

  -- The kernel reports success exactly when it was handed the machine as the interface promises;
  -- otherwise it reports one of its two failure codes. It always ends in the fail-stop loop, with
  -- the report as its only effect.
  pub kernel_main-verdict :
      (boot_info : ℕ) (info : BootInfo) (initialized_data : ℕ) (words : List ℕ)
      → let run = kernel_main boot_info info initialized_data words s in
        (IsHandedOver boot_info info initialized_data words × (run ≡ stopped (traced 0x20000001)))
        ⊎ ((¬ IsHandedOver boot_info info initialized_data words)
            × ((run ≡ stopped (traced 0xb007bad0)) ⊎ (run ≡ stopped (traced 0xb007bad1))))
  unfolding kernel_main
  kernel_main-verdict boot_info info initialized_data words =
      elim (Bool-cases (handoff_is_bad boot_info info initialized_data)) [
        | inr fine ↦ rw fine (elim (check_bss-cases words) [
          | inl (z, e) ↦ inl (good boot_info info initialized_data words fine z, rw e refl)
          | inr (nz, e) ↦ inr (λ over. nz over.bss, inr (rw e refl))
        ])
        | inl wrong ↦ inr (bad boot_info info initialized_data words wrong, inl (rw wrong refl))
      ]
