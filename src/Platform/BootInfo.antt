-- ===== src/Platform/BootInfo.antt =====
-- kernel/include/minemu/boot.h: the boot information as the kernel reads it.
use minimum_tests.Base.{ℕ, ◌+◌, ◌*◌, ◌^◌, List, [], ◌∷◌}
use minimum_tests.Memory.{Memory, word_at}

abbrev pub boot_info_magic : ℕ
boot_info_magic = 0x4d424f4f

abbrev pub abi_version : ℕ
abi_version = 1

abbrev pub boot_info_vaddr : ℕ
boot_info_vaddr = 0xc0007000

abbrev pub sizeof_boot_info : ℕ
sizeof_boot_info = 64

pub record BootInfo : Type 0 where
  pub magic : ℕ
  pub version : ℕ
  pub size : ℕ
  pub system_rom_base : ℕ
  pub image_size : ℕ
  pub module_table_offset : ℕ
  pub module_count : ℕ
  pub direct_map_vaddr : ℕ
  pub direct_map_paddr : ℕ
  pub direct_map_size : ℕ
  pub flags : ℕ
  pub reserved : List ℕ

abbrev halfword_at : Memory → ℕ → ℕ
halfword_at m a = m a + m (a + 1) * 2 ^ 8

-- The structure's fields at their offsets, with the structure at address `p`.
unfoldable pub boot_info_at : Memory → ℕ → BootInfo
unfolding word_at
boot_info_at m p = record {
  magic = word_at m p;
  version = halfword_at m (p + 4);
  size = halfword_at m (p + 6);
  system_rom_base = word_at m (p + 8);
  image_size = word_at m (p + 12);
  module_table_offset = word_at m (p + 16);
  module_count = word_at m (p + 20);
  direct_map_vaddr = word_at m (p + 24);
  direct_map_paddr = word_at m (p + 28);
  direct_map_size = word_at m (p + 32);
  flags = word_at m (p + 36);
  reserved =
      word_at m (p + 40)
      ∷ word_at m (p + 44)
      ∷ word_at m (p + 48)
      ∷ word_at m (p + 52)
      ∷ word_at m (p + 56)
      ∷ word_at m (p + 60)
      ∷ [];
}
