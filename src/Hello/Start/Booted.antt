-- ===== src/Hello/Start/Booted.antt =====
-- The firmware and the kernel of the example together, from the packed image to user mode.
use minimum_tests.Base.{ℕ, ◌+◌, ◌-◌, ◌≡◌, refl, sym, subst, arith}
use minimum_tests.Memory.{Memory, IsBytes, SameOn, word_at-lt}
use minimum_tests.Platform.{system_rom_base, system_rom_size}
use minimum_tests.Platform.BootInfo.{BootInfo, boot_info_at}
use minimum_tests.Machine.{Bus, Machine, Result, ret}
use minimum_tests.Boot.{Handoff, boot_main}
use minimum_tests.Boot.Info.{published_info}
use minimum_tests.Boot.Image.{header, IsPacked}
use minimum_tests.Boot.Main.{IsBooted, boot_main-IsBooted}
use minimum_tests.Hello.Tables.{Layout}
use minimum_tests.Hello.Module.{Loader}
use minimum_tests.Hello.Start.{UserEntry, kernel_main}
use minimum_tests.Hello.Start.Enter.{
  IsHandedOver, IsLaidOut, AreInRange, IsEnding, refused_handoff, refused_module, entered,
  IsUserEntry, kernel_main-IsEnding,
}
use minimum_tests.Hello.Start.Exact.{IsStartable, kernel_main-IsStartable}
use minimum_tests.Hello.Start.SameRom.{IsStartable_same}

module _ (m : Memory) (p : IsPacked m) where
  abbrev pub booted : Handoff
  booted = boot_main m

  -- What the packer wrote into the header, as the firmware passes it on.
  abbrev pub packed_info : BootInfo
  packed_info = published_info (header m 0x08) (header m 0x14) (header m 0x18)

  done : IsBooted m booted
  done = boot_main-IsBooted m p

  -- The firmware writes to RAM only.
  pub boot_main-SameRom : SameOn system_rom_base system_rom_size m booted.memory
  boot_main-SameRom a inside =
      done.outside a (λ i lt. omega (arith, (p.placed i lt).from_ram)) (omega arith)

  module _ (layout : Layout) (l : Loader) (laid : IsLaidOut layout)
      (pages : (i : ℕ) → IsBytes (l.pages.bytes i)) (stack : IsBytes l.stack) where
    in_range : AreInRange booted.memory packed_info l
    in_range = record {
      memory = done.bytes;
      image_size = word_at-lt m (system_rom_base + 0x08) p.bytes;
      table_offset = word_at-lt m (system_rom_base + 0x14) p.bytes;
      pages = pages;
      stack = stack;
    }

    module _ {D : Type 0} ⦃bus : Bus D⦄ (s : Machine D) where
      entered-IsUserEntry :
          {o : Result D UserEntry} (e : UserEntry)
          → IsEnding layout booted.memory packed_info l 0xc0007000 s o
          → o ≡ ret e s
          → IsUserEntry layout booted.memory packed_info l e
      entered-IsUserEntry e (refused_handoff why) same = cc
      entered-IsUserEntry e (refused_module over mappable) same = cc
      entered-IsUserEntry e (entered e' over mappable at) same =
          subst (λ (t : UserEntry). IsUserEntry layout booted.memory packed_info l t) (cc) at

      promised : IsHandedOver 0xc0007000 packed_info
      promised = record {
        pointer = refl;
        magic = refl;
        version = refl;
        size = refl;
        vaddr = refl;
        paddr = refl;
        map_size = refl;
      }

      from_image :
          IsStartable m packed_info
          → (e : UserEntry) × (kernel_main layout booted.memory 0xc0007000 packed_info l s
              ≡ ret e s)
            × IsUserEntry layout booted.memory packed_info l e
      from_image ok =
          let (e, run) =
            (kernel_main-IsStartable booted.memory packed_info layout l laid in_range 0xc0007000
                s).0
              (promised, IsStartable_same m booted.memory packed_info boot_main-SameRom ok) in
          (
            e,
            run,
            entered-IsUserEntry e
                (kernel_main-IsEnding layout booted.memory packed_info l laid in_range 0xc0007000 s)
                run,
          )

      to_image :
          (e : UserEntry)
          → kernel_main layout booted.memory 0xc0007000 packed_info l s ≡ ret e s
          → IsStartable m packed_info
      to_image e run =
          IsStartable_same booted.memory m packed_info
            (λ a inside. sym (boot_main-SameRom a inside))
            ((kernel_main-IsStartable booted.memory packed_info layout l laid in_range 0xc0007000
                s).1
              (e, run)).1

      -- The firmware run on a packed image, and then the kernel of the example on the memory that
      -- it leaves, with statics of bytes that are page aligned in the direct map and read through
      -- it: the kernel enters user mode exactly if the image is one that starts, as it was before
      -- the firmware ran. Then it is entered as the kernel's own theorem says, at the first module
      -- named "user-hello", without a word on the trace port.
      pub firmware_enters_user :
          let run =
            kernel_main layout booted.memory booted.argument
              (boot_info_at booted.memory (booted.argument - 0x80000000))
              l
              s in
          (IsStartable m packed_info
            → (e : UserEntry) × (run ≡ ret e s) × IsUserEntry layout booted.memory packed_info l e)
          × ((e : UserEntry) → run ≡ ret e s → IsStartable m packed_info)
      firmware_enters_user = rw (done.argument, done.info) (from_image, to_image)
