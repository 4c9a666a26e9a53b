-- ===== src/Boot/Main.antt =====
-- What the kernel finds when the firmware enters it.
use minimum_tests.Base.{ℕ, ◌+◌, ◌≤◌, ◌<◌, ◌≡◌, refl, ◌∙◌, arith, for_loop}
use minimum_tests.Memory.{Memory, IsBytes, SameOn, SameOff, word_at-lt}
use minimum_tests.Platform.{system_rom_base, system_rom_size}
use minimum_tests.Platform.BootInfo.{boot_info_at}
use minimum_tests.Boot.{
  Handoff, load_round, boot_main, read_u32, write_boot_info, boot_info_paddr, boot_info_size,
}
use minimum_tests.Boot.Info.{
  published_info, boot_info_at-write_boot_info, write_boot_info-SameOff, write_boot_info-IsBytes,
}
use minimum_tests.Boot.Image.{header, segment_count, packed_segment, AreApart, IsPacked, content}
use minimum_tests.Boot.Load.{read_rom, IsLoaded, IsLoaded-SameRom, segments-IsLoaded}

pub record IsBooted (m : Memory) (h : Handoff) : Type 0 where
  pub bytes : IsBytes h.memory
  pub loaded :
      (i j : ℕ)
      → i < segment_count m
      → j < (packed_segment m i).memory_size
      → h.memory ((packed_segment m i).destination + j) ≡ content m (packed_segment m i) j
  pub info :
      boot_info_at h.memory boot_info_paddr
      ≡ published_info (header m 0x08) (header m 0x14) (header m 0x18)
  pub outside :
      (a : ℕ)
      → ((i : ℕ)
          → i < segment_count m
          → AreApart (packed_segment m i).destination (packed_segment m i).memory_size a 1)
      → AreApart boot_info_paddr boot_info_size a 1
      → h.memory a ≡ m a
  pub entry : h.entry ≡ header m 0x1c
  pub argument : h.argument ≡ 0xc0007000

module _ (m : Memory) (p : IsPacked m) where
  abbrev loaded : Memory
  loaded = for_loop (load_round (header m 0x0c)) (segment_count m) 0 m

  segments : IsLoaded m (segment_count m) loaded
  segments = segments-IsLoaded m p

  rom : SameOn system_rom_base system_rom_size m loaded
  rom = IsLoaded-SameRom m loaded (segment_count m) p (omega arith) segments

  abbrev published : Memory
  published = write_boot_info (header m 0x08) (header m 0x14) (header m 0x18) loaded

  off : SameOff boot_info_paddr boot_info_size loaded published
  off = write_boot_info-SameOff _ _ _ loaded segments.bytes

  rom_after : SameOn system_rom_base system_rom_size m published
  rom_after a inside = off a (omega arith) ∙ rom a inside

  bytes_after : IsBytes published
  bytes_after = write_boot_info-IsBytes _ _ _ loaded segments.bytes

  header_word :
      (t : Memory) (offset : ℕ)
      → IsBytes t
      → SameOn system_rom_base system_rom_size m t
      → offset ≤ 0x1c
      → read_u32 t (system_rom_base + offset) ≡ header m offset
  header_word t offset h same le =
      read_rom m t (system_rom_base + offset) h same (omega arith) (omega arith)

  runs : boot_main m ≡ record { memory = published; entry = header m 0x1c; argument = 0xc0007000 }
  unfolding boot_main
  runs =
      rw
        (
          header_word m 0x08 p.bytes (λ a i. refl) (omega arith),
          header_word m 0x0c p.bytes (λ a i. refl) (omega arith),
          header_word m 0x10 p.bytes (λ a i. refl) (omega arith),
          header_word loaded 0x14 segments.bytes rom (omega arith),
          header_word loaded 0x18 segments.bytes rom (omega arith),
          header_word published 0x1c bytes_after rom_after (omega arith),
        )
        refl

  -- Given an image as the packer promises it, the firmware enters the kernel at the image's
  -- bootstrap entry, with the boot information's virtual address, and in a memory where every
  -- kernel segment holds its file bytes followed by zeros, the boot information holds the image's
  -- size and module table and the fixed fields of the interface, and no other byte has changed.
  pub boot_main-IsBooted : IsBooted m (boot_main m)
  boot_main-IsBooted = rw runs (record {
    bytes = bytes_after;
    loaded = λ i j lt inside. ground (
      arith,
      p.placed i lt,
      off ((packed_segment m i).destination + j),
      segments.loaded i j lt inside,
    );
    info =
        boot_info_at-write_boot_info _ _ _ loaded segments.bytes (word_at-lt m _ p.bytes)
          (word_at-lt m _ p.bytes) (word_at-lt m _ p.bytes);
    outside = λ a apart spares. off a (omega arith) ∙ segments.outside a apart;
    entry = refl;
    argument = refl;
  })
