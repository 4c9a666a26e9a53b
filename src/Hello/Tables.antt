-- ===== src/Hello/Tables.antt =====
-- The page tables that the kernel of the example writes: the mapping of system ROM.
pub mod Filled
pub mod Rom
pub use minimum_tests.Platform.Mmu.{
  pte_valid, pte_writable, pte_user, pte_executable, pte_readable, pde_valid, page_size,
}
use minimum_tests.Base.{
  ℕ, ◌+◌, ◌-◌, ◌*◌, ◌/◌, Bool, ◌||◌, Option, none, some, bit_or, u32, sub_u32, ◌>>>◌, ltb, ◌==◌,
  ◌!=◌, if◌then◌else◌, for_loop,
}
use minimum_tests.Platform.{system_rom_base, system_rom_size, ram_base, kernel_direct_base}
use minimum_tests.Platform.BootInfo.{BootInfo}

abbrev pub system_rom_table_count : ℕ
system_rom_table_count = 4

-- Where the linker has put the statics that the processor walks.
pub record Layout : Type 0 where
  pub system_rom_tables : ℕ
  pub user_page_table : ℕ
  pub user_image_pages : ℕ
  pub user_stack : ℕ

-- The tables, as arrays of words, and how often the TLB has been flushed.
pub record Tables : Type 0 where
  pub directory : ℕ → ℕ
  pub system_rom : ℕ → ℕ → ℕ
  pub user : ℕ → ℕ
  pub flushes : ℕ

-- `array[index] = value`
abbrev pub put {ℓ} : {A : Type ℓ} → (ℕ → A) → ℕ → A → ℕ → A
put array index value i = if i == index then value else array i

pub kernel_vaddr_to_paddr : ℕ → ℕ
kernel_vaddr_to_paddr address = u32 (sub_u32 address kernel_direct_base + ram_base)

-- `zero_bytes` over a whole table of 1024 words.
abbrev pub zeroed_table : ℕ → ℕ
zeroed_table index = 0

abbrev pub rom_entry : BootInfo → (page : ℕ) → ℕ
rom_entry info page =
    bit_or (bit_or (u32 (info.system_rom_base + page * page_size)) pte_valid) pte_readable

abbrev pub rom_table_entry : BootInfo → (table index : ℕ) → (ℕ → ℕ) → ℕ → ℕ
rom_table_entry info table index entries = put entries index (rom_entry info (table * 1024 + index))

-- A round of the loop over the tables.
abbrev pub rom_table : Layout → BootInfo → (page_count table : ℕ) → Tables → Tables
rom_table layout info page_count table t =
    let remaining = sub_u32 page_count (table * 1024) in
    let entries = if ltb remaining 1024 then remaining else 1024 in
    record t {
      system_rom =
          put t.system_rom table (for_loop (rom_table_entry info table) entries 0 zeroed_table);
      directory =
          put t.directory ((info.system_rom_base >>> 22) + table)
            (bit_or (kernel_vaddr_to_paddr (layout.system_rom_tables + table * 4096)) pde_valid);
    }

abbrev pub tlbiall : Tables → Tables
tlbiall t = record t { flushes = t.flushes + 1 }

-- `none` is the false that it returns, before any write.
pub map_system_rom : Layout → BootInfo → Tables → Option Tables
map_system_rom layout info t =
    if info.system_rom_base != system_rom_base
      || info.image_size == 0
      || ltb system_rom_size info.image_size
    then none
    else (let page_count = u32 (info.image_size + page_size - 1) / page_size in
        let table_count = u32 (page_count + 1023) / 1024 in
        if ltb system_rom_table_count table_count
        then none
        else some (tlbiall (for_loop (rom_table layout info page_count) table_count 0 t)))
