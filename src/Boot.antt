-- ===== src/Boot.antt =====
-- bootloader/src/boot.c: the reset firmware that copies the packed kernel into RAM, publishes the
-- boot information and enters the kernel.
mod Words
mod Bytes
pub mod Info
pub mod Image
mod Load
pub mod Main
pub mod Tests
use minimum_tests.Base.{ℕ, ◌+◌, ◌*◌, bit_or, u8, u16, u32, sub_u32, ◌<<◌, ◌>>>◌, for_loop}
use minimum_tests.Memory.{Memory, store_byte}

abbrev pub system_rom_base : ℕ
system_rom_base = 0x08000000

abbrev pub boot_info_paddr : ℕ
boot_info_paddr = 0x40007000

abbrev pub boot_info_vaddr : ℕ
boot_info_vaddr = 0xc0007000

-- The fields of the packed image's header.
abbrev pub image_size_offset : ℕ
image_size_offset = 0x08

abbrev pub kernel_table_offset : ℕ
kernel_table_offset = 0x0c

abbrev pub kernel_count_offset : ℕ
kernel_count_offset = 0x10

abbrev pub module_table_offset : ℕ
module_table_offset = 0x14

abbrev pub module_count_offset : ℕ
module_count_offset = 0x18

abbrev pub bootstrap_entry_offset : ℕ
bootstrap_entry_offset = 0x1c

-- The fields of a kernel segment record.
abbrev pub segment_data_offset : ℕ
segment_data_offset = 0x00

abbrev pub segment_paddr_offset : ℕ
segment_paddr_offset = 0x04

abbrev pub segment_file_size_offset : ℕ
segment_file_size_offset = 0x0c

abbrev pub segment_memory_size_offset : ℕ
segment_memory_size_offset = 0x10

abbrev pub kernel_segment_size : ℕ
kernel_segment_size = 32

-- What the boot information holds.
abbrev pub boot_info_magic : ℕ
boot_info_magic = 0x4d424f4f

abbrev pub abi_version : ℕ
abi_version = 1

abbrev pub boot_info_size : ℕ
boot_info_size = 64

abbrev pub direct_map_vaddr : ℕ
direct_map_vaddr = 0xc0000000

abbrev pub direct_map_paddr : ℕ
direct_map_paddr = 0x40000000

abbrev pub direct_map_size : ℕ
direct_map_size = 0x04000000

-- A byte pointer that is indexed: addresses wrap at 32 bits.
abbrev pub at : ℕ → ℕ → ℕ
at pointer index = u32 (pointer + index)

pub read_u32 : Memory → ℕ → ℕ
read_u32 m address =
    bit_or (bit_or (bit_or (m (at address 0)) (m (at address 1) << 8)) (m (at address 2) << 16))
      (m (at address 3) << 24)

pub write_u16 : ℕ → ℕ → Memory → Memory
write_u16 address value m =
    let m = store_byte m (at address 0) (u8 value) in store_byte m (at address 1) (u8 (value >>> 8))

pub write_u32 : ℕ → ℕ → Memory → Memory
write_u32 address value m =
    let m = store_byte m (at address 0) (u8 value) in
    let m = store_byte m (at address 1) (u8 (value >>> 8)) in
    let m = store_byte m (at address 2) (u8 (value >>> 16)) in
    store_byte m (at address 3) (u8 (value >>> 24))

abbrev pub copy_byte : ℕ → ℕ → ℕ → Memory → Memory
copy_byte destination source index m = store_byte m (at destination index) (m (at source index))

abbrev pub zero_byte : ℕ → ℕ → Memory → Memory
zero_byte destination index m = store_byte m (at destination index) 0

pub copy_bytes : (destination source count : ℕ) → Memory → Memory
copy_bytes destination source count = for_loop (copy_byte destination source) count 0

pub zero_bytes : (destination count : ℕ) → Memory → Memory
zero_bytes destination count = for_loop (zero_byte destination) count 0

pub write_boot_info : (image_size module_table module_count : ℕ) → Memory → Memory
write_boot_info image_size module_table module_count m =
    let m = zero_bytes boot_info_paddr boot_info_size m in
    let m = write_u32 (boot_info_paddr + 0x00) boot_info_magic m in
    let m = write_u16 (boot_info_paddr + 0x04) (u16 abi_version) m in
    let m = write_u16 (boot_info_paddr + 0x06) (u16 boot_info_size) m in
    let m = write_u32 (boot_info_paddr + 0x08) system_rom_base m in
    let m = write_u32 (boot_info_paddr + 0x0c) image_size m in
    let m = write_u32 (boot_info_paddr + 0x10) module_table m in
    let m = write_u32 (boot_info_paddr + 0x14) module_count m in
    let m = write_u32 (boot_info_paddr + 0x18) direct_map_vaddr m in
    let m = write_u32 (boot_info_paddr + 0x1c) direct_map_paddr m in
    write_u32 (boot_info_paddr + 0x20) direct_map_size m

-- The locals of a round of the loop over the kernel's segments.
pub record Segment : Type 0 where
  pub source : ℕ
  pub destination : ℕ
  pub file_size : ℕ
  pub memory_size : ℕ

pub read_segment : (kernel_table index : ℕ) → Memory → Segment
read_segment kernel_table index m =
    let record_address = u32 (system_rom_base + kernel_table + index * kernel_segment_size) in
    record {
      source = u32 (system_rom_base + read_u32 m (u32 (record_address + segment_data_offset)));
      destination = read_u32 m (u32 (record_address + segment_paddr_offset));
      file_size = read_u32 m (u32 (record_address + segment_file_size_offset));
      memory_size = read_u32 m (u32 (record_address + segment_memory_size_offset));
    }

pub load_segment : Segment → Memory → Memory
load_segment s m =
    zero_bytes (u32 (s.destination + s.file_size)) (sub_u32 s.memory_size s.file_size)
      (copy_bytes s.destination s.source s.file_size m)

abbrev pub load_round : (kernel_table index : ℕ) → Memory → Memory
load_round kernel_table index m = load_segment (read_segment kernel_table index m) m

-- What the kernel is entered with: the memory, the program counter and the argument.
pub record Handoff : Type 0 where
  pub memory : Memory
  pub entry : ℕ
  pub argument : ℕ

pub boot_main : Memory → Handoff
boot_main m =
    let image_size = read_u32 m (system_rom_base + image_size_offset) in
    let kernel_table = read_u32 m (system_rom_base + kernel_table_offset) in
    let kernel_count = read_u32 m (system_rom_base + kernel_count_offset) in
    let loaded = for_loop (load_round kernel_table) kernel_count 0 m in
    let published =
      write_boot_info image_size (read_u32 loaded (system_rom_base + module_table_offset))
        (read_u32 loaded (system_rom_base + module_count_offset)) loaded in
    record {
      memory = published;
      entry = read_u32 published (system_rom_base + bootstrap_entry_offset);
      argument = boot_info_vaddr;
    }
