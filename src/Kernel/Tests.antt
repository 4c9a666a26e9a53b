-- ===== src/Kernel/Tests.antt =====
-- The baseline kernel on the image of the firmware's tests.
use minimum_tests.Base.{◌+◌, ◌-◌, ◌≡◌, ◌≢◌, ◌⊎◌, refl, arith, [], ◌∷◌}
use minimum_tests.Memory.{word_at}
use minimum_tests.Machine.{stopped}
use minimum_tests.Machine.Sample.{quiet, idle}
use minimum_tests.Platform.BootInfo.{BootInfo, boot_info_at}
use minimum_tests.Boot.Image.{header, packed_segment}
use minimum_tests.Boot.Tests.{image, image-IsPacked}
use minimum_tests.Kernel.{kernel_main}
use minimum_tests.Kernel.Accept.{IsHandedOver, traced, kernel_main-verdict}
use minimum_tests.Kernel.Baseline.{
  booted, paddr_of, words_at, IsInitialised, IsCleared, baseline_passes,
}

abbrev bad_info : BootInfo
bad_info = boot_info_at (λ a. 0) 0xc0007000

kernel_main-verdict_example :
    let run = kernel_main 0xc0007000 bad_info 0x13579bdf (0 ∷ []) idle in
    (IsHandedOver 0xc0007000 bad_info 0x13579bdf (0 ∷ [])
      × (run ≡ stopped (traced idle 0x20000001)))
    ⊎ ((¬ IsHandedOver 0xc0007000 bad_info 0x13579bdf (0 ∷ []))
        × ((run ≡ stopped (traced idle 0xb007bad0)) ⊎ (run ≡ stopped (traced idle 0xb007bad1))))
kernel_main-verdict_example = kernel_main-verdict idle 0xc0007000 bad_info 0x13579bdf (0 ∷ [])

nonempty : header image 0x08 ≢ 0
unfolding word_at
nonempty = λ e. absurd (omega (arith, e))

tabled : header image 0x14 ≢ 0
unfolding word_at
tabled = λ e. absurd (omega (arith, e))

one_module : header image 0x18 ≡ 1
unfolding word_at
one_module = refl

initialised : IsInitialised image 0 0 4
unfolding word_at
initialised = (omega arith, omega arith)

value : word_at image ((packed_segment image 0).source + 0) ≡ 0x13579bdf
unfolding word_at
value = refl

cleared : IsCleared image 0 4 128
unfolding word_at
cleared = (omega arith, omega arith, omega arith)

baseline_passes_example :
    kernel_main
      (booted image image-IsPacked).argument
      (boot_info_at
        (booted image image-IsPacked).memory
        ((booted image image-IsPacked).argument - 0x80000000))
      (word_at (booted image image-IsPacked).memory (paddr_of image 0 0))
      (words_at (booted image image-IsPacked).memory (paddr_of image 0 4) 32)
      idle
    ≡ stopped (traced idle 0x20000001)
baseline_passes_example =
    baseline_passes image image-IsPacked idle 0 0 0 4 nonempty tabled one_module initialised value
      cleared
