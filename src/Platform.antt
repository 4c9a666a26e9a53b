-- ===== src/Platform.antt =====
-- The constants and structures of kernel/include/minemu that more than one part uses.
pub mod BootInfo
pub mod TrapFrame
pub mod Mmu
pub mod Registers
pub mod Devices
use minimum_tests.Base.{ℕ}

-- platform.h
abbrev pub system_rom_base : ℕ
system_rom_base = 0x08000000

abbrev pub system_rom_size : ℕ
system_rom_size = 0x01000000

abbrev pub ram_base : ℕ
ram_base = 0x40000000

abbrev pub ram_size : ℕ
ram_size = 0x04000000

abbrev pub kernel_direct_base : ℕ
kernel_direct_base = 0xc0000000

abbrev pub kernel_direct_size : ℕ
kernel_direct_size = ram_size
