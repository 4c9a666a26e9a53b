-- ===== src/Boot/Info.antt =====
-- What `write_boot_info` leaves for the kernel.
use minimum_tests.Base.{ℕ, ◌^◌, ◌<◌, ◌≡◌, [], ◌∷◌, arith, for_loop}
use minimum_tests.Memory.{Memory, IsBytes, SameOff, IsFilled, store_byte}
use minimum_tests.Platform.BootInfo.{BootInfo, boot_info_at}
use minimum_tests.Boot.{
  boot_info_paddr, boot_info_size, zero_bytes, write_u16, write_u32, write_boot_info,
}
use minimum_tests.Boot.Bytes.{zero_bytes-IsFilled}

abbrev pub published_info : (image_size module_table module_count : ℕ) → BootInfo
published_info image_size module_table module_count = record {
  magic = 0x4d424f4f;
  version = 1;
  size = 64;
  system_rom_base = 0x08000000;
  image_size = image_size;
  module_table_offset = module_table;
  module_count = module_count;
  direct_map_vaddr = 0xc0000000;
  direct_map_paddr = 0x40000000;
  direct_map_size = 0x04000000;
  flags = 0;
  reserved = 0 ∷ 0 ∷ 0 ∷ 0 ∷ 0 ∷ 0 ∷ [];
}

module _ (image_size module_table module_count : ℕ) (m : Memory) (h : IsBytes m) where
  abbrev after : Memory
  after = write_boot_info image_size module_table module_count m

  abbrev cleared : Memory
  cleared = zero_bytes boot_info_paddr boot_info_size m

  clears : IsFilled (λ _. 0) boot_info_paddr boot_info_size m cleared
  clears = zero_bytes-IsFilled boot_info_paddr boot_info_size m h (omega arith)

  -- For a memory of bytes and words that fit in 32 bits: the boot information that the firmware
  -- writes is read back, through the structure of the interface, field by field as it was given,
  -- with the constants of the interface in the other fields and zeros in those that are reserved.
  pub boot_info_at-write_boot_info :
      image_size < 2 ^ 32
      → module_table < 2 ^ 32
      → module_count < 2 ^ 32
      → boot_info_at after boot_info_paddr ≡ published_info image_size module_table module_count
  unfolding boot_info_at write_boot_info write_u16 write_u32 store_byte zero_bytes for_loop
  boot_info_at-write_boot_info hs ht hc = ground arith

  pub write_boot_info-SameOff : SameOff boot_info_paddr boot_info_size m after
  unfolding write_boot_info write_u16 write_u32 store_byte
  write_boot_info-SameOff a out = ground (arith, clears.outside a out)

  pub write_boot_info-IsBytes : IsBytes after
  unfolding write_boot_info write_u16 write_u32 store_byte
  write_boot_info-IsBytes a = ground (arith, clears.bytes a)
