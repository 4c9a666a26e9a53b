-- ===== src/Hello/Image.antt =====
-- The checks of offsets into the packed image, and the search for a module by its name.
pub mod Ranges
pub mod Find
use minimum_tests.Base.{
  ℕ, zero, suc, ◌+◌, ◌*◌, ◌-◌, Bool, true, false, ◌&&◌, Option, none, some, u8, u32, sub_u32, ◌>>>◌,
  ltb, leb, ◌==◌, ◌!=◌, if◌then◌else◌,
}
use minimum_tests.Memory.{Memory, word_at}
use minimum_tests.Platform.BootInfo.{BootInfo}

unfoldable pub image_range_valid : (offset length image_size : ℕ) → Bool
image_range_valid offset length image_size =
    leb offset image_size && leb length (sub_u32 image_size offset)

pub image_records_valid : (offset count image_size : ℕ) → Bool
image_records_valid offset count image_size =
    leb offset image_size && leb count (sub_u32 image_size offset >>> 5)

-- `struct minemu_module_record` and `struct minemu_module_segment` of boot.h.
pub record ModuleRecord : Type 0 where
  pub name_offset : ℕ
  pub name_length : ℕ
  pub segment_table_offset : ℕ
  pub segment_count : ℕ
  pub entry_vaddr : ℕ
  pub flags : ℕ

pub record ModuleSegment : Type 0 where
  pub data_offset : ℕ
  pub virtual_address : ℕ
  pub file_size : ℕ
  pub memory_size : ℕ
  pub flags : ℕ

unfoldable pub module_at : Memory → ℕ → ModuleRecord
module_at m p = record {
  name_offset = word_at m p;
  name_length = word_at m (p + 4);
  segment_table_offset = word_at m (p + 8);
  segment_count = word_at m (p + 12);
  entry_vaddr = word_at m (p + 16);
  flags = word_at m (p + 20);
}

unfoldable pub segment_at : Memory → ℕ → ModuleSegment
segment_at m p = record {
  data_offset = word_at m p;
  virtual_address = word_at m (p + 4);
  file_size = word_at m (p + 8);
  memory_size = word_at m (p + 12);
  flags = word_at m (p + 16);
}

-- The loop of `bytes_equal` at `index`, with `rounds` left. The bytes of `right` are given by
-- their index.
unfoldable pub equal_from : (left : ℕ) (right : ℕ → ℕ) (rounds index : ℕ) → Memory → Bool
equal_from left right zero index m = true
equal_from left right (suc rounds) index m =
    let rest = equal_from left right rounds (suc index) m in
    if m (u32 (left + index)) != u8 (right index) then false else rest

unfoldable pub bytes_equal : (left : ℕ) (right : ℕ → ℕ) (length : ℕ) → Memory → Bool
unfolding equal_from
bytes_equal left right length m = equal_from left right length 0 m

-- The test that a record's name is the one wanted.
unfoldable pub module_matches :
    BootInfo → (name : ℕ → ℕ) (name_length : ℕ) → ModuleRecord → Memory → Bool
module_matches info name name_length module_record m =
    module_record.name_length == name_length
    && image_range_valid module_record.name_offset module_record.name_length info.image_size
    && bytes_equal (u32 (info.system_rom_base + module_record.name_offset)) name name_length m

-- The loop of `find_module` at `index`, with `rounds` left; a pointer to a record is its address.
pub find_from : BootInfo → (name : ℕ → ℕ) (name_length modules rounds index : ℕ) → Memory → Option ℕ
find_from info name name_length modules zero index m = none
find_from info name name_length modules (suc rounds) index m =
    let rest = find_from info name name_length modules rounds (suc index) m in
    let address = u32 (modules + index * 32) in
    if module_matches info name name_length (module_at m address) m then some address else rest

pub find_module : BootInfo → (name : ℕ → ℕ) (name_length : ℕ) → Memory → Option ℕ
find_module info name name_length m =
    if image_records_valid info.module_table_offset info.module_count info.image_size
    then find_from info name name_length (u32 (info.system_rom_base + info.module_table_offset))
        info.module_count 0 m
    else none
