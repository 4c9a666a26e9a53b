-- ===== src/Hello/Module.antt =====
-- `load_user_module`: the segments of a module into user pages, and the user's page table.
pub mod Flags
pub mod InPlace
pub mod Rewritten
pub mod Segment
pub mod Table
pub mod Segments
pub mod Sequence
pub mod Accept
pub mod Fits
pub mod Exact
use minimum_tests.Base.{
  ℕ, zero, suc, ◌+◌, ◌-◌, ◌*◌, Bool, true, false, not, ◌&&◌, ◌||◌, some, none, bit_and, bit_or, u32,
  sub_u32, ◌>>>◌, ltb, leb, ◌==◌, ◌!=◌, if◌then◌else◌, for_loop,
}
use minimum_tests.Memory.{Memory}
use minimum_tests.Platform.BootInfo.{BootInfo}
use minimum_tests.Hello.Image.{
  ModuleRecord, ModuleSegment, segment_at, image_range_valid, image_records_valid,
}
use minimum_tests.Hello.Pages.{
  UserPages, Load, Outcome, done, refused, unfinished, pure, fail, ◌>>=◌, ◌>>◌, prepare_user_range,
  write_user_range, zero_bytes,
}
use minimum_tests.Hello.Tables.{
  Layout, Tables, put, kernel_vaddr_to_paddr, zeroed_table, tlbiall, pte_valid, pte_writable,
  pte_user, pte_executable, pte_readable, pde_valid,
}

abbrev pub user_image_base : ℕ
user_image_base = 0x00400000

abbrev pub user_stack_bottom : ℕ
user_stack_bottom = 0x007ff000

abbrev pub user_stack_top : ℕ
user_stack_top = 0x00800000

-- boot.h
abbrev pub segment_readable : ℕ
segment_readable = 1

abbrev pub segment_writable : ℕ
segment_writable = 2

abbrev pub segment_executable : ℕ
segment_executable = 4

abbrev pub or_if : Bool → ℕ → ℕ → ℕ
or_if test flag flags = if test then bit_or flags flag else flags

pub pte_flags_from_segment : ℕ → ℕ
pte_flags_from_segment segment_flags =
    let pte_flags : ℕ = 0 in
    let pte_flags = or_if (bit_and segment_flags segment_readable != 0) pte_readable pte_flags in
    let pte_flags = or_if (bit_and segment_flags segment_writable != 0) pte_writable pte_flags in
    or_if (bit_and segment_flags segment_executable != 0) pte_executable pte_flags

-- The checks of a segment. `~(1 | 2 | 4)` is 0xfffffff8.
pub segment_is_bad : BootInfo → ModuleSegment → Bool
segment_is_bad info s =
    s.memory_size == 0
    || ltb s.memory_size s.file_size
    || bit_and s.flags 0xfffffff8 != 0
    || (bit_and s.flags segment_executable != 0 && bit_and s.flags segment_readable == 0)
    || ltb s.virtual_address user_image_base
    || leb user_stack_bottom s.virtual_address
    || ltb (sub_u32 user_stack_bottom s.virtual_address) s.memory_size
    || not (image_range_valid s.data_offset s.file_size info.image_size)

-- The image lies at an address that is not 0, so a pointer into it is not NULL.
pub load_segment : Memory → BootInfo → ModuleSegment → Load (Unit {0})
load_segment m info s = if segment_is_bad info s then fail else do
  prepare_user_range s.virtual_address s.memory_size (pte_flags_from_segment s.flags)
  write_user_range m s.virtual_address none s.memory_size
  write_user_range m s.virtual_address (some (u32 (info.system_rom_base + s.data_offset)))
      s.file_size

-- The test that the module's entry is an instruction of the segment's file bytes.
pub holds_entry : (entry_vaddr : ℕ) → ModuleSegment → Bool
holds_entry entry_vaddr s =
    bit_and s.flags segment_executable != 0
    && leb 4 s.file_size
    && leb s.virtual_address entry_vaddr
    && leb (sub_u32 entry_vaddr s.virtual_address) (s.file_size - 4)

-- The loop over the segments at `index`, with `rounds` left; it returns `entry_is_executable`.
pub load_segments : Memory → BootInfo → (segments entry_vaddr rounds index : ℕ) → Bool → Load Bool
load_segments m info segments entry_vaddr zero index entry_is_executable = pure entry_is_executable
load_segments m info segments entry_vaddr (suc rounds) index entry_is_executable = do
  let segment = segment_at m (u32 (segments + index * 32))
  load_segment m info segment
  load_segments m info segments entry_vaddr rounds (suc index)
      (if holds_entry entry_vaddr segment then true else entry_is_executable)

-- The statics that the loader writes.
pub record Loader : Type 0 where
  pub tables : Tables
  pub pages : UserPages
  pub stack : Memory

pub data Loaded : Type 0 where
  accepted rejected : Loader → Loaded
  endless : Loaded

abbrev pub user_entry : Layout → UserPages → (index : ℕ) → ℕ
user_entry layout p index =
    bit_or
      (bit_or (bit_or (kernel_vaddr_to_paddr (layout.user_image_pages + index * 4096)) pte_valid)
        pte_user)
      (p.flags index)

abbrev pub table_index : ℕ → ℕ
table_index vaddr = bit_and (vaddr >>> 12) 1023

abbrev pub map_page : Layout → UserPages → (index : ℕ) → (ℕ → ℕ) → ℕ → ℕ
map_page layout p index table = put table (table_index (p.vaddrs index)) (user_entry layout p index)

abbrev pub stack_entry : Layout → ℕ
stack_entry layout =
    bit_or
      (bit_or (bit_or (bit_or (kernel_vaddr_to_paddr layout.user_stack) pte_valid) pte_user)
        pte_readable)
      pte_writable

-- What follows once the segments are loaded.
pub map_user : Layout → Loader → Loader
map_user layout l =
    let table = for_loop (map_page layout l.pages) l.pages.count 0 l.tables.user in
    let table = put table (table_index user_stack_bottom) (stack_entry layout) in
    record l {
      tables = tlbiall (record l.tables {
        user = table;
        directory =
            put l.tables.directory (user_image_base >>> 22)
              (bit_or (kernel_vaddr_to_paddr layout.user_page_table) pde_valid);
      });
    }

-- The statics once they are cleared for a module.
abbrev pub cleared : Loader → Loader
cleared l = record {
  tables = record l.tables { user = zeroed_table };
  pages = record l.pages { count = 0 };
  stack = zero_bytes 0 4096 l.stack;
}

abbrev pub finish : Layout → Loader → Outcome Bool → Loaded
finish layout l (done true p) = accepted (map_user layout (record l { pages = p }))
finish layout l (done false p) = rejected (record l { pages = p })
finish layout l (refused p) = rejected (record l { pages = p })
finish layout l unfinished = endless

pub load_user_module : Layout → Memory → BootInfo → ModuleRecord → Loader → Loaded
load_user_module layout m info user_module l =
    if user_module.segment_count == 0
      || not (
          image_records_valid user_module.segment_table_offset user_module.segment_count
            info.image_size)
      || bit_and user_module.entry_vaddr 3 != 0
    then rejected l
    else finish layout (cleared l) (
        load_segments m info (u32 (info.system_rom_base + user_module.segment_table_offset))
          user_module.entry_vaddr user_module.segment_count 0 false (cleared l).pages)
