-- ===== src/Kernel/Baseline.antt =====
-- The firmware and the baseline kernel together: image/minimum-test.toml expects the kernel's
-- success value from the packed image.
use minimum_tests.Base.{
  ℕ, zero, suc, ◌+◌, ◌-◌, ◌*◌, ◌≤◌, ◌<◌, ◌≡◌, ◌≢◌, ◌∙◌, refl, ap, inl, inr, List, [], ◌∷◌, arith,
}
use minimum_tests.Memory.{Memory, word_at}
use minimum_tests.Machine.{Bus, Machine, stopped}
use minimum_tests.Platform.BootInfo.{BootInfo, boot_info_at}
use minimum_tests.Boot.{Handoff, boot_main}
use minimum_tests.Boot.Info.{published_info}
use minimum_tests.Boot.Image.{header, segment_count, packed_segment, IsPacked}
use minimum_tests.Boot.Main.{IsBooted, boot_main-IsBooted}
use minimum_tests.Kernel.{kernel_main}
use minimum_tests.Kernel.Accept.{AreZero, IsHandedOver, traced, kernel_main-verdict}

-- An array of words in memory.
abbrev pub words_at : Memory → ℕ → ℕ → List ℕ
words_at m a zero = []
words_at m a (suc n) = word_at m a ∷ words_at m (a + 4) n

-- Bytes `offset` to `offset + n` of segment `i` are file bytes, or lie behind them.
abbrev pub IsInitialised : Memory → (i offset n : ℕ) → Type 0
IsInitialised m i offset n = (i < segment_count m) × (offset + n ≤ (packed_segment m i).file_size)

abbrev pub IsCleared : Memory → (i offset n : ℕ) → Type 0
IsCleared m i offset n =
    (i < segment_count m)
    × ((packed_segment m i).file_size ≤ offset)
    × (offset + n ≤ (packed_segment m i).memory_size)

abbrev pub paddr_of : Memory → (i offset : ℕ) → ℕ
paddr_of m i offset = (packed_segment m i).destination + offset

module _ (m : Memory) (p : IsPacked m) where
  abbrev pub booted : Handoff
  booted = boot_main m

  done : IsBooted m booted
  done = boot_main-IsBooted m p

  initialised_word :
      (i offset : ℕ)
      → IsInitialised m i offset 4
      → word_at booted.memory (paddr_of m i offset)
        ≡ word_at m ((packed_segment m i).source + offset)
  unfolding word_at
  initialised_word i offset (lt, fits) = ground (
    arith,
    p.placed i lt,
    done.loaded i offset lt,
    done.loaded i (offset + 1) lt,
    done.loaded i (offset + 2) lt,
    done.loaded i (offset + 3) lt,
  )

  cleared_word :
      (i offset : ℕ) → IsCleared m i offset 4 → word_at booted.memory (paddr_of m i offset) ≡ 0
  unfolding word_at
  cleared_word i offset (lt, behind, fits) = ground (
    arith,
    done.loaded i offset lt,
    done.loaded i (offset + 1) lt,
    done.loaded i (offset + 2) lt,
    done.loaded i (offset + 3) lt,
  )

  cleared_words :
      (n i offset a : ℕ)
      → IsCleared m i offset (n * 4)
      → a ≡ paddr_of m i offset
      → AreZero (words_at booted.memory a n)
  cleared_words zero i offset a c e = tt
  cleared_words (suc n) i offset a (lt, behind, fits) e = (
    ap (word_at booted.memory) e ∙ cleared_word i offset (lt, behind, omega arith),
    cleared_words n i (offset + 4) (a + 4) (lt, omega arith, omega arith) (omega arith),
  )

  -- The firmware run on a packed image with a nonempty module table of one module, and then the
  -- baseline kernel on the memory that it leaves, ends with the success value. The kernel's
  -- initialised static has its link-time value among the file bytes of a segment, its cleared
  -- array lies behind a segment's file bytes, and the kernel reads through the direct map.
  pub baseline_passes :
      {D : Type 0} ⦃bus : Bus D⦄ (s : Machine D) (i offset k behind : ℕ)
      → header m 0x08 ≢ 0
      → header m 0x14 ≢ 0
      → header m 0x18 ≡ 1
      → IsInitialised m i offset 4
      → word_at m ((packed_segment m i).source + offset) ≡ 0x13579bdf
      → IsCleared m k behind 128
      → kernel_main booted.argument
          (boot_info_at booted.memory (booted.argument - 0x80000000))
          (word_at booted.memory (paddr_of m i offset))
          (words_at booted.memory (paddr_of m k behind) 32)
          s
        ≡ stopped (traced s 0x20000001)
  baseline_passes s i offset k behind size table modules inside value clear =
      rw (done.argument, done.info, initialised_word i offset inside, value)
        (elim (kernel_main-verdict s 0xc0007000 info 0x13579bdf bss) [
          | inl (over, e) ↦ e
          | inr (not_over, e) ↦ absurd (not_over handed_over)
        ])
    where
      info : BootInfo
      info = published_info (header m 0x08) (header m 0x14) (header m 0x18)

      bss : List ℕ
      bss = words_at booted.memory (paddr_of m k behind) 32

      handed_over : IsHandedOver 0xc0007000 info 0x13579bdf bss
      handed_over = record {
        pointer = refl;
        magic = refl;
        version = refl;
        size = refl;
        rom = refl;
        image = size;
        modules = modules;
        table = table;
        vaddr = refl;
        paddr = refl;
        map_size = refl;
        initialised = refl;
        bss = cleared_words 32 k behind (paddr_of m k behind) clear refl;
      }
